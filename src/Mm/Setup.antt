-- ===== src/Mm/Setup.antt =====
-- ctrlxt_mm_init and mm_exit.
use ctrlxt_kernel.Base.{ℕ, ◌+◌, ◌^◌, ◌<◌, ◌≡◌, refl, true, false, [], ◌∷◌, arith, ◌==◌}
use ctrlxt_kernel.Kernel.Errno.{success}
use ctrlxt_kernel.Kernel.Atomic.{atomic_add}
use ctrlxt_kernel.Kernel.Run.{ok, ◌>>=◌, Returns, returns}
use ctrlxt_kernel.Mm.{
  Machine, Mm, Region, init, exit, register_memory_regions, init_quantum_memory, freed_by,
  quantum_memory_alloc, quantum_size, ram_bytes, pages_of, plus, minus, memory_region_quantum,
  quantum_memory_coherent, memory_region_normal,
}
use ctrlxt_kernel.Mm.Alloc.{Heads, alloc-moved}

minus-plus : (x y : ℕ) → x + y < 2 ^ 64 → minus (plus x y) x ≡ y
minus-plus x y fits = omega arith

module _ (k : Machine) where
  open k use {page_offset, get_order}

  abbrev pub normal_region : Region
  normal_region = record {
    start = page_offset;
    end = plus page_offset (ram_bytes k);
    flags = memory_region_normal;
    quantum_flags = 0;
  }

  abbrev pub quantum_region : ℕ → Region
  quantum_region address = record {
    start = address;
    end = plus address (quantum_size k);
    flags = memory_region_quantum;
    quantum_flags = quantum_memory_coherent;
  }

  -- The state behind an initialisation in which both allocations succeed.
  abbrev pub started : ℕ → Mm → Mm
  started address m = record m {
    memory_regions = quantum_region address ∷ normal_region ∷ [];
    locked = false;
    total_pages = atomic_add (pages_of k (minus normal_region.end page_offset)) 0;
    free_pages = atomic_add (pages_of k (minus normal_region.end page_offset)) 0;
    quantum_pages = atomic_add (pages_of k (quantum_size k)) 0;
  }

  pub init-started :
      (address : ℕ) (m : Mm)
      → 0 < address
      → init k true true address m ≡ ok success (started address m)
  unfolding init register_memory_regions init_quantum_memory
  init-started address m h = let z : (address == 0) ≡ false = ground arith in rw z refl

  pub started-Heads :
      (address : ℕ) (m : Mm)
      → Heads (quantum_region address) (normal_region ∷ []) (started address m)
  started-Heads address m = record { regions = refl; quantum = refl; unlocked = refl }

  -- When both regions are set up and nothing is allocated in between, unloading empties the list
  -- of regions and gives the pages of the quantum region back where they were obtained, with the
  -- order they were obtained with, if its end does not wrap.
  pub exit-init :
      (address : ℕ) (m : Mm)
      → 0 < address
      → address + quantum_size k < 2 ^ 64
      → Returns
          (λ _ n.
            (n.memory_regions ≡ []) × (n.freed ≡ (address, get_order (quantum_size k)) ∷ m.freed))
          ((init k true true address >>= λ _. exit k) m)
  unfolding exit freed_by
  exit-init address m h fits =
      let e : minus (plus address (quantum_size k)) address ≡ quantum_size k =
        minus-plus address (quantum_size k) fits in
      rw (init-started address m h) (returns (refl, rw e refl))

  -- Behind an allocation that is not empty and not freed, unloading gives the pages of the quantum
  -- region back at a higher address than the one they were obtained at.
  pub exit_misplaced :
      (address size : ℕ) (m : Mm)
      → 0 < address
      → 0 < size
      → address + size < 2 ^ 64
      → Returns
          (λ _ n. (p : ℕ × ℕ) × (n.freed ≡ p ∷ m.freed) × (address < p.0))
          ((init k true true address >>= λ _. quantum_memory_alloc size >>= λ _. exit k) m)
  unfolding exit freed_by
  exit_misplaced address size m h some_more fits =
      rw
        (
          init-started address m h,
          alloc-moved size (quantum_region address) (normal_region ∷ []) (started address m)
              (started-Heads address m) fits,
        )
        (returns (_, refl, omega arith))

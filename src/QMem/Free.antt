-- ===== src/QMem/Free.antt =====
-- ctrlxt_qmem_free, ctrlxt_qmem_put and ctrlxt_qmem_get of a live block.
use ctrlxt_kernel.Base.{
  ℕ, ◌+◌, ◌-◌, ◌%◌, ◌<◌, ◌^◌, ◌≡◌, true, false, none, some, arith, erase, cons_opt,
}
use ctrlxt_kernel.Kernel.Pointer.{addr}
use ctrlxt_kernel.Kernel.Atomic.{atomic_sub}
use ctrlxt_kernel.Kernel.Run.{ok, write, write-write, write-read}
use ctrlxt_kernel.QMem.Defs.{Block, QMem, free, get, release_block, kfree_block, state_free}

-- The state behind the release of the last reference.
abbrev pub released : ℕ → Block → QMem → QMem
released a b m = record m {
  used_blocks = erase a m.used_blocks;
  locked = false;
  total_qubits = atomic_sub b.size m.total_qubits;
  allocated_qubits = atomic_sub b.size m.allocated_qubits;
  heap = write m.heap a none;
  freed_states = cons_opt b.state m.freed_states;
}

-- The state behind a change of the reference count.
abbrev pub recounted : ℕ → Block → ℕ → QMem → QMem
recounted a b n m = record m { heap = write m.heap a (some (record b { ref_count = n })) }

module _ (a : ℕ) (b : Block) (m : QMem) where
  release_block-released :
      (n : ℕ)
      → release_block a (record b { ref_count = n }) (recounted a b n (record m { locked = true }))
        ≡ ok tt (record (released a b m) { locked = true })
  unfolding release_block kfree_block state_free
  release_block-released n = ground (
    arith,
    write-read m.heap a (some (record b { ref_count = n })),
    write-write m.heap a (some (record b { ref_count = n })) none,
  )

  pub free-released :
      m.locked ≡ false
      → m.heap a ≡ some b
      → b.ref_count ≡ 1
      → free (addr a) m ≡ ok tt (released a b m)
  unfolding free
  free-released u e one = rw (u, e, one) (rw (release_block-released 0))

  pub free-recounted :
      m.locked ≡ false
      → m.heap a ≡ some b
      → 1 < b.ref_count
      → b.ref_count < 2 ^ 32
      → free (addr a) m ≡ ok tt (recounted a b (b.ref_count - 1) m)
  unfolding free
  free-recounted u e more fits =
      let r : (b.ref_count + 2 ^ 32 - 1) % 2 ^ 32 ≡ b.ref_count - 1 = omega arith in ground arith

  pub get-recounted :
      m.heap a ≡ some b
      → b.ref_count + 1 < 2 ^ 32
      → get (addr a) m ≡ ok (addr a) (recounted a b (b.ref_count + 1) m)
  unfolding get
  get-recounted e fits =
      let r : (b.ref_count + 1) % 2 ^ 32 ≡ b.ref_count + 1 = omega arith in ground arith

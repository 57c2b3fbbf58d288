-- ===== src/Device/Ioctl/Memory.antt =====
-- The memory commands of quantum_ioctl over the memory manager.
use ctrlxt_kernel.Base.{
  ℕ, ◌+◌, ◌≤◌, ◌<◌, ◌≡◌, refl, true, some, none, Option, ◌∷◌, ℤ, arith, has, ◌==◌, false, is_zero,
  if◌then◌else◌, eqb_refl, eqb→eq,
}
use ctrlxt_kernel.Kernel.Errno.{success}
use ctrlxt_kernel.Kernel.Pointer.{null, addr, err_ptr}
use ctrlxt_kernel.Kernel.Atomic.{atomic_inc}
use ctrlxt_kernel.Kernel.Run.{ok, fault, write, ◌>>=◌, Returns, returns}
use ctrlxt_kernel.Quantum.{Quantum}
use ctrlxt_kernel.QMem.Defs.{QMem, alloc, free, qmem_max_qubits_per_block}
use ctrlxt_kernel.QMem.Sound.{IsSound, granted, granted-IsSound}
use ctrlxt_kernel.QMem.RoundTrip.{alloc-granted, free-alloc}
use ctrlxt_kernel.Device.Ioctl.{Device, alloc_memory, free_memory, dispatch, finish, ioctl}

-- What a successful allocation needs of the memory manager.
record Fits (n a : ℕ) (m : QMem) : Type 0 where
  sound : IsSound m
  lo : 0 < n
  hi : n ≤ qmem_max_qubits_per_block
  room : m.allocated_qubits + n ≤ m.max_qubits
  fresh : m.heap a ≡ none

granted-Fits :
    (n f a s k b : ℕ) (m : QMem)
    → Fits n a m
    → 0 < k
    → k ≤ qmem_max_qubits_per_block
    → m.allocated_qubits + n + k ≤ m.max_qubits
    → m.heap b ≡ none
    → (a == b) ≡ false
    → Fits k b (granted n f a s m)
unfolding write
granted-Fits n f a s k b m w lk hk room fb apart = record {
  sound = granted-IsSound n f a s m w.sound w.lo w.hi w.room w.fresh;
  lo = lk;
  hi = hk;
  room = omega (arith, w.sound.within, w.sound.small);
  fresh = ground (arith, eqb→eq b a, eqb_refl b);
}

module _ (q : Quantum) where
  open q use {State, Gate}

  ioctl-alloc_memory :
      (n f a s : ℕ) (d : Device State)
      → Fits n a d.qmem
      → ioctl q (alloc_memory (some (n, f)) (some a) (some s)) d
        ≡ ok success (record d {
          operation_count = atomic_inc d.operation_count;
          memory = addr a;
          qmem = granted n f a s d.qmem;
        })
  unfolding ioctl dispatch finish
  ioctl-alloc_memory n f a s d w =
      rw (alloc-granted n f a s d.qmem w.sound w.lo w.hi w.room w.fresh)

  ioctl-free_memory :
      (a : ℕ) (d : Device State) (m : QMem)
      → d.memory ≡ addr a
      → free (addr a) d.qmem ≡ ok tt m
      → ioctl q free_memory d
        ≡ ok success
            (record d { operation_count = atomic_inc d.operation_count; memory = null; qmem = m })
  unfolding ioctl dispatch finish
  ioctl-free_memory a d m held freed = ground arith

  ioctl-free_memory_err :
      (e : ℤ) (d : Device State) → d.memory ≡ err_ptr e → ioctl q free_memory d ≡ fault
  unfolding ioctl dispatch free
  ioctl-free_memory_err e d held = ground arith

  -- The state behind a failed allocation.
  abbrev counted : ℤ → Device State → QMem → Device State
  counted e d m =
      record (if is_zero e
        then record d { operation_count = atomic_inc d.operation_count }
        else d) { memory = err_ptr e; qmem = m }

  ioctl-alloc_memory_fails :
      (n f : ℕ) (block state : Option ℕ) (d : Device State) (m : QMem) (e : ℤ)
      → alloc n f block state d.qmem ≡ ok (err_ptr e) m
      → ioctl q (alloc_memory (some (n, f)) block state) d ≡ ok e (counted e d m)
  unfolding ioctl dispatch finish
  ioctl-alloc_memory_fails n f block state d m e failed = ground arith

  abbrev allocated : ℕ → ℕ → ℕ → ℕ → Device State → Device State
  allocated n f a s d = record d {
    operation_count = atomic_inc d.operation_count;
    memory = addr a;
    qmem = granted n f a s d.qmem;
  }

  free-granted :
      (n f a s : ℕ) (m : QMem)
      → Fits n a m
      → free (addr a) (granted n f a s m) ≡ ok tt (record m { freed_states = s ∷ m.freed_states })
  free-granted n f a s m w =
      rw (alloc-granted n f a s m w.sound w.lo w.hi w.room w.fresh) at
        (free-alloc n f a s m w.sound w.lo w.hi w.room w.fresh)

  -- Memory that is allocated and freed through the device: both commands return 0 and are counted,
  -- the device holds no memory, and the memory manager is as before but for the state freed.
  pub ioctl-alloc-free :
      (n f a s : ℕ) (d : Device State)
      → IsSound d.qmem
      → 0 < n
      → n ≤ qmem_max_qubits_per_block
      → d.qmem.allocated_qubits + n ≤ d.qmem.max_qubits
      → d.qmem.heap a ≡ none
      → (ioctl q (alloc_memory (some (n, f)) (some a) (some s)) >>= λ _. ioctl q free_memory) d
        ≡ ok success (record d {
          operation_count = atomic_inc (atomic_inc d.operation_count);
          memory = null;
          qmem = record (d.qmem) { freed_states = s ∷ d.qmem.freed_states };
        })
  ioctl-alloc-free n f a s d v lo hi room fresh =
      let w : Fits n a d.qmem = record {
        sound = v;
        lo = lo;
        hi = hi;
        room = room;
        fresh = fresh;
      } in
      rw (ioctl-alloc_memory n f a s d w)
        (ioctl-free_memory a (allocated n f a s d) _ refl (free-granted n f a s d.qmem w))

  -- A second allocation loses the first: after two allocations and one free the block of the
  -- first is still allocated, and the device holds no pointer to it.
  pub ioctl-alloc_leaks :
      (n f a s k g b t : ℕ) (d : Device State)
      → IsSound d.qmem
      → 0 < n
      → 0 < k
      → n ≤ qmem_max_qubits_per_block
      → k ≤ qmem_max_qubits_per_block
      → d.qmem.allocated_qubits + n + k ≤ d.qmem.max_qubits
      → d.qmem.heap a ≡ none
      → d.qmem.heap b ≡ none
      → (a == b) ≡ false
      → Returns
          (λ ret e. (ret ≡ success) × (e.memory ≡ null) × (has a e.qmem.used_blocks ≡ true))
          ((ioctl q (alloc_memory (some (n, f)) (some a) (some s)) >>= λ _.
              ioctl q (alloc_memory (some (k, g)) (some b) (some t)) >>= λ _. ioctl q free_memory)
            d)
  ioctl-alloc_leaks n f a s k g b t d v ln lk hn hk room fa fb apart =
      let w : Fits n a d.qmem = record {
        sound = v;
        lo = ln;
        hi = hn;
        room = omega arith;
        fresh = fa;
      } in
      let w' : Fits k b (granted n f a s d.qmem) =
        granted-Fits n f a s k b d.qmem w lk hk room fb apart in
      rw (ioctl-alloc_memory n f a s d w) (
        rw (ioctl-alloc-free k g b t (allocated n f a s d) w'.sound lk hk w'.room w'.fresh)
          (returns (refl, refl, ground (arith, eqb_refl a))))

  -- A failed allocation leaves its error code in the place of the pointer, and the command that
  -- frees the memory then reads through it: a fault.
  pub ioctl-free_memory_fault :
      (n f : ℕ) (block state : Option ℕ) (d : Device State) (m : QMem) (e : ℤ)
      → alloc n f block state d.qmem ≡ ok (err_ptr e) m
      → (ioctl q (alloc_memory (some (n, f)) block state) >>= λ _. ioctl q free_memory) d ≡ fault
  ioctl-free_memory_fault n f block state d m e failed =
      rw (ioctl-alloc_memory_fails n f block state d m e failed)
        (ioctl-free_memory_err e (counted e d m) refl)

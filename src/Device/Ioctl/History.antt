-- ===== src/Device/Ioctl/History.antt =====
-- Histories of commands to the device, over the memory manager behind it.
use ctrlxt_kernel.Base.{
  ℕ, inl, inr, Bool-cases, ◌≡◌, refl, true, false, is_zero, Option, none, some, List, ℤ, has,
}
use ctrlxt_kernel.Kernel.Pointer.{Pointer, null, addr, err_ptr, is_err}
use ctrlxt_kernel.Kernel.Run.{Run, Cmd, pure, ◌>>◌, and_then, Returns, returns, Returns-then}
use ctrlxt_kernel.Kernel.History.{Lawful, run_all, run_all-keeps}
use ctrlxt_kernel.Quantum.{Quantum}
use ctrlxt_kernel.QMem.Defs.{QMem}
use ctrlxt_kernel.QMem.Sound.{IsSound}
use ctrlxt_kernel.QMem.Alloc.{IsFresh}
use ctrlxt_kernel.QMem.History.{Granted, alloc-Granted, free-IsSound}
use ctrlxt_kernel.Device.Ioctl.{
  Device, Command, init, measure, apply_gate, alloc_memory, free_memory, get_stats, set_caps,
  get_caps, unknown, with_qmem, alloc_case, free_case, dispatch, finish, ioctl,
}

-- What the pointer of the device shows: nothing, a listed block, or an error code.
abbrev pub Kept : Pointer → QMem → Type 0
Kept null m = Unit {0}
Kept (addr a) m = has a m.used_blocks ≡ true
Kept (err_ptr e) m = Unit {0}

Granted-Kept : (p : Pointer) (m : QMem) → Granted p m → Kept p m
Granted-Kept null m (v, h) = tt
Granted-Kept (addr a) m (v, h) = h
Granted-Kept (err_ptr e) m (v, h) = tt

module _ {S : Type 0} where
  abbrev pub IsGood : Device S → Type 0
  IsGood d = IsSound d.qmem × Kept d.memory d.qmem

  -- An allocation comes at an unused address, and no memory is freed behind a failed allocation.
  abbrev pub Permitted : {Gate : Type 0} → Command Gate → Device S → Type 0
  Permitted (alloc_memory (some _) block state) d = IsFresh block d.qmem
  Permitted free_memory d = is_err d.memory ≡ false
  Permitted c d = Unit {0}

  -- A call of the memory manager that returns, and what comes behind it.
  with_qmem-then :
      {A B : Type 0} {P : A → QMem → Type 0} {Q : B → Device S → Type 0} {r : Run QMem A}
      (d : Device S) (k : A → Cmd (Device S) B)
      → Returns P r
      → ((a : A) (m : QMem) → P a m → Returns Q (k a (record d { qmem = m })))
      → Returns Q (and_then (with_qmem d r) k)
  with_qmem-then d k (returns p) next = next _ _ p

  alloc_case-IsGood :
      (n f : ℕ) (block state : Option ℕ) (d : Device S)
      → IsSound d.qmem
      → IsFresh block d.qmem
      → Returns (λ _. IsGood) (alloc_case n f block state d)
  unfolding alloc_case
  alloc_case-IsGood n f block state d v h =
      with_qmem-then d _ (alloc-Granted n f block state d.qmem v h)
        λ p m g. returns (g.0, Granted-Kept p m g)

  free_case-IsGood :
      (p : Pointer) (d : Device S)
      → IsSound d.qmem
      → d.memory ≡ p
      → Kept p d.qmem
      → is_err p ≡ false
      → Returns (λ _. IsGood) (free_case p d)
  unfolding free_case
  free_case-IsGood null d v e k h = returns (v, rw e tt)
  free_case-IsGood (addr a) d v e k h =
      with_qmem-then d _ (free-IsSound (addr a) d.qmem v k) (λ _ m w. returns (w, tt))
  free_case-IsGood (err_ptr x) d v e k h = cc

module _ (q : Quantum) where
  open q use {State, Gate}

  dispatch-IsGood :
      (c : Command Gate) (d : Device State)
      → IsGood d
      → Permitted c d
      → Returns (λ _. IsGood) (dispatch q c d)
  unfolding dispatch
  dispatch-IsGood (init arg) d g h = returns g
  dispatch-IsGood (measure byte) d g h = returns g
  dispatch-IsGood (apply_gate none) d g h = returns g
  dispatch-IsGood (apply_gate (some _)) d g h = returns g
  dispatch-IsGood (alloc_memory none block state) d g h = returns g
  dispatch-IsGood (alloc_memory (some (n, f)) block state) d g h =
      alloc_case-IsGood n f block state d g.0 h
  dispatch-IsGood free_memory d g h = free_case-IsGood d.memory d g.0 refl g.1 h
  dispatch-IsGood get_stats d g h = returns g
  dispatch-IsGood set_caps d g h = returns g
  dispatch-IsGood get_caps d g h = returns g
  dispatch-IsGood (unknown n) d g h = returns g

  finish-IsGood : (ret : ℤ) (d : Device State) → IsGood d → Returns (λ _. IsGood) (finish q ret d)
  unfolding finish
  finish-IsGood ret d g = elim (Bool-cases (is_zero ret)) [
    | inl e ↦ rw e (returns g)
    | inr e ↦ rw e (returns g)
  ]

  -- A command whose result the history does not read.
  unfoldable pub command : Command Gate → Cmd (Device State) (Unit {0})
  command c d = (ioctl q c >> pure tt) d

  command-IsGood :
      (c : Command Gate) (d : Device State)
      → IsGood d
      → Permitted c d
      → Returns (λ _. IsGood) (command c d)
  unfolding command ioctl
  command-IsGood c d g h =
      Returns-then (Returns-then (dispatch-IsGood c d g h) finish-IsGood) (λ _ e w. returns w)

  -- From a device without memory and a memory manager with the invariant, a history of commands in
  -- which allocations come at unused addresses, and no QUANTUM_IOCTL_FREE_MEMORY finds the error
  -- code of a failed allocation, ends without a fault. The memory manager keeps its invariant, and
  -- the device holds NULL, an allocated block, or the error code of an allocation.
  pub run_all-IsGood :
      (cs : List (Command Gate)) (d : Device State)
      → IsSound d.qmem
      → d.memory ≡ null
      → Lawful command Permitted cs d
      → Returns (λ _. IsGood) (run_all command cs d)
  run_all-IsGood cs d v e h =
      run_all-keeps command Permitted IsGood command-IsGood cs d (v, rw e tt) h

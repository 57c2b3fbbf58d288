-- ===== src/Device/Ioctl/Counting.antt =====
-- operation_count counts the commands that succeed.
use ctrlxt_kernel.Base.{ℕ, ℤ, ◌≡◌, refl, is_zero, if◌then◌else◌, arith, Option, none, some}
use ctrlxt_kernel.Kernel.Atomic.{atomic_inc}
use ctrlxt_kernel.Kernel.Run.{Run, ok, fault, and_then}
use ctrlxt_kernel.Kernel.Pointer.{Pointer, null, addr, err_ptr}
use ctrlxt_kernel.Quantum.{Quantum}
use ctrlxt_kernel.Device.Ioctl.{
  Device, Command, init, apply_gate, alloc_memory, free_memory, dispatch, alloc_case, free_case,
  finish, ioctl,
}

module _ (q : Quantum) where
  open q use {State, Gate}

  alloc_case-count :
      (n f : ℕ) (block state : Option ℕ) (d e : Device State) (ret : ℤ)
      → alloc_case n f block state d ≡ ok ret e
      → e.operation_count ≡ d.operation_count
  unfolding alloc_case
  alloc_case-count n f block state d e ret h = ground arith

  free_case-count :
      (p : Pointer) (d e : Device State) (ret : ℤ)
      → free_case p d ≡ ok ret e
      → e.operation_count ≡ d.operation_count
  unfolding free_case
  free_case-count null d e ret h = ground arith
  free_case-count (addr a) d e ret h = ground arith
  free_case-count (err_ptr x) d e ret h = ground arith

  dispatch-count :
      (c : Command Gate) (d e : Device State) (ret : ℤ)
      → dispatch q c d ≡ ok ret e
      → e.operation_count ≡ d.operation_count
  unfolding dispatch
  dispatch-count (init arg) d e ret h = ground arith
  dispatch-count (alloc_memory (some (n, f)) block state) d e ret h =
      alloc_case-count n f block state d e ret h
  dispatch-count (alloc_memory none block state) d e ret h = ground arith
  dispatch-count (apply_gate none) d e ret h = ground arith
  dispatch-count (apply_gate (some (g, n))) d e ret h = ground arith
  dispatch-count free_memory d e ret h = free_case-count d.memory d e ret h
  dispatch-count c d e ret h = ground arith

  count_up :
      (r : Run (Device State) ℤ) (d e : Device State) (ret : ℤ)
      → ((e' : Device State) (ret' : ℤ) → r ≡ ok ret' e' → e'.operation_count ≡ d.operation_count)
      → and_then r (finish q) ≡ ok ret e
      → e.operation_count
        ≡ (if is_zero ret then atomic_inc d.operation_count else d.operation_count)
  unfolding finish
  count_up (ok ret' e') d e ret same h = ground (arith, same e' ret' refl)
  count_up fault d e ret same h = ground arith

  -- A command that ends without a fault raises operation_count by one (modulo 2 ^ 32) exactly if
  -- it returns 0, and leaves it otherwise.
  pub ioctl-count :
      (c : Command Gate) (d e : Device State) (ret : ℤ)
      → ioctl q c d ≡ ok ret e
      → e.operation_count
        ≡ (if is_zero ret then atomic_inc d.operation_count else d.operation_count)
  unfolding ioctl
  ioctl-count c d e ret h = count_up (dispatch q c d) d e ret (dispatch-count c d) h

-- ===== src/Device/Ioctl.antt =====
-- quantum_ioctl. The commands are the eight of kernel/include/quantum_device.h and any other
-- number. A command comes with what copy_from_user reads (`none` where that fails), with the byte at
-- the user's pointer, whose new value is left out, and with what the allocations return. The memory manager is part of the state.
pub mod Memory
pub mod Counting
pub mod History
use ctrlxt_kernel.Base.{ℕ, Bool, true, false, Option, none, some, ℤ, is_zero, if◌then◌else◌}
use ctrlxt_kernel.Kernel.Errno.{success, efault, enotty}
use ctrlxt_kernel.Kernel.Pointer.{Pointer, null, addr, err_ptr, is_err, ptr_err}
use ctrlxt_kernel.Kernel.Atomic.{atomic_inc}
use ctrlxt_kernel.Kernel.Run.{Run, ok, fault, Cmd, pure, ◌>>=◌, ◌>>◌, modify, gets}
use ctrlxt_kernel.Quantum.{Quantum}
use ctrlxt_kernel.QMem.Defs.{QMem, alloc, free}

-- The fields of `struct ctrlxt_quantum_device` that the handlers use, and the memory manager.
pub record Device (State : Type 0) : Type 0 where
  pub state : State
  pub operation_count : ℕ
  pub memory : Pointer
  pub qmem : QMem

pub data Command (Gate : Type 0) : Type 0 where
  init : ℕ → Command Gate
  measure : ℕ → Command Gate
  apply_gate : Option (Gate × ℕ) → Command Gate
  alloc_memory : Option (ℕ × ℕ) → (block state : Option ℕ) → Command Gate
  free_memory get_stats set_caps get_caps : Command Gate
  unknown : ℕ → Command Gate

-- A call of the memory manager.
abbrev pub with_qmem : {S A : Type 0} → Device S → Run QMem A → Run (Device S) A
with_qmem d (ok a m) = ok a (record d { qmem = m })
with_qmem d fault = fault

abbrev pub set_memory : {S : Type 0} → Pointer → Cmd (Device S) (Unit {0})
set_memory p = modify λ d. record d { memory = p }

-- The case QUANTUM_IOCTL_ALLOC_MEMORY behind copy_from_user.
unfoldable pub alloc_case : {S : Type 0} → ℕ → ℕ → Option ℕ → Option ℕ → Cmd (Device S) ℤ
alloc_case num_qubits flags block state = do
  p ← λ d. with_qmem d (alloc num_qubits flags block state d.qmem)
  set_memory p
  pure (if is_err p then ptr_err p else success)

-- The case QUANTUM_IOCTL_FREE_MEMORY at the pointer that the device holds.
unfoldable pub free_case : {S : Type 0} → Pointer → Cmd (Device S) ℤ
free_case null = pure success
free_case (addr a) = do λ d. with_qmem d (free (addr a) d.qmem); set_memory null; pure success
free_case (err_ptr e) = do λ d. with_qmem d (free (err_ptr e) d.qmem); set_memory null; pure success

module _ (q : Quantum) where
  open q use {State, Gate, state_init, state_measure, gate_apply}

  -- The `switch`: the value of `ret` behind it.
  unfoldable pub dispatch : Command Gate → Cmd (Device State) ℤ
  unfolding alloc_case free_case
  dispatch (init arg) d = let (ret, s) = state_init d.state arg in ok ret (record d { state = s })
  dispatch (measure byte) d =
      let (ret, _, s) = state_measure d.state byte in ok ret (record d { state = s })
  dispatch (apply_gate none) d = ok efault d
  dispatch (apply_gate (some (gate, qubit))) d =
      let (ret, s) = gate_apply gate d.state qubit in ok ret (record d { state = s })
  dispatch (alloc_memory none block state) d = ok efault d
  dispatch (alloc_memory (some (num_qubits, flags)) block state) d =
      alloc_case num_qubits flags block state d
  dispatch free_memory d = free_case d.memory d
  dispatch get_stats d = ok enotty d
  dispatch set_caps d = ok enotty d
  dispatch get_caps d = ok enotty d
  dispatch (unknown n) d = ok enotty d

  -- The end of quantum_ioctl: a command that returned 0 is counted.
  unfoldable pub finish : ℤ → Cmd (Device State) ℤ
  finish ret d =
      ok ret
        (if is_zero ret then record d { operation_count = atomic_inc d.operation_count } else d)

  -- quantum_ioctl
  unfoldable pub ioctl : Command Gate → Cmd (Device State) ℤ
  ioctl c d = (do ret ← dispatch c; finish ret) d

-- ===== src/Qc.antt =====
-- The quantum-classical interface, kernel/quantum/quantum_classical.c, over the interface of
-- quantum.h and over error correction. `struct ctrlxt_qc_interface` is the record `Qc`; its qdev
-- field is never used and is left out. Caller's memory is a list of bytes (`none` is NULL), and a
-- read past its end is a fault.
pub mod Lifecycle
pub mod Convert
pub mod Measure
pub mod Control
use ctrlxt_kernel.Base.{
  ℕ, zero, suc, ◌+◌, ◌%◌, Bool, true, false, Option, none, some, List, [], ◌∷◌, ◌++◌, ℤ, is_neg,
  ltb, ◌==◌, if◌then◌else◌, length, take, drop,
}
use ctrlxt_kernel.Kernel.Errno.{success, enomem, einval}
use ctrlxt_kernel.Kernel.Atomic.{atomic_inc}
use ctrlxt_kernel.Kernel.Run.{Run, ok, fault, Cmd, pure, ◌>>=◌, ◌>>◌, modify}
use ctrlxt_kernel.Kernel.Slot.{Slot, empty, live, freed, slot, free_slot}
use ctrlxt_kernel.Quantum.{Quantum}
use ctrlxt_kernel.Qec.{Qec}
use ctrlxt_kernel.Qec

pub record Qc (State : Type 0) : Type 0 where
  pub quantum_state : Slot State
  pub classical_buffer : Slot (List ℕ)
  pub buffer_size : ℕ
  pub locked : Bool
  pub conversion_count : ℕ
  pub measurement_count : ℕ
  pub qec : Qec State

module _ {S : Type 0} where
  abbrev pub lock : Cmd (Qc S) (Unit {0})
  lock m = if m.locked then fault else ok tt (record m { locked = true })

  abbrev pub unlock : Cmd (Qc S) (Unit {0})
  unlock m = ok tt (record m { locked = false })

  -- The label `error` of ctrlxt_qc_init, and the body of qc_exit: both pointers are freed if they
  -- are not NULL, and neither is reset.
  unfoldable pub free_both : Cmd (Qc S) (Unit {0})
  free_both m = elim (free_slot m.quantum_state) [
    | none ↦ fault
    | some s ↦ elim (free_slot m.classical_buffer) [
      | none ↦ fault
      | some b ↦ ok tt (record m { quantum_state = s; classical_buffer = b })
    ]
  ]

  -- `memcpy(classical_buffer, data, size)`: the bytes to copy and the rest of the buffer.
  unfoldable pub copy_in : ℕ → List ℕ → Cmd (Qc S) (Unit {0})
  copy_in zero bytes m = ok tt m
  copy_in (suc n) bytes m = if ltb (length bytes) (suc n) then fault else elim m.classical_buffer [
    | empty ↦ fault
    | freed ↦ fault
    | live old ↦
        ok tt (record m { classical_buffer = live (take (suc n) bytes ++ drop (suc n) old) })
  ]

  -- The first bytes of the buffer.
  unfoldable pub read_buffer : ℕ → Cmd (Qc S) (List ℕ)
  read_buffer zero m = ok [] m
  read_buffer (suc n) m = elim m.classical_buffer [
    | empty ↦ fault
    | freed ↦ fault
    | live bytes ↦ if ltb (length bytes) (suc n) then fault else ok (take (suc n) bytes) m
  ]

  -- `struct quantum_classical_stats`, from ctrlxt_qc_get_stats.
  unfoldable pub get_stats : Qc S → Option (ℕ × ℕ) → Option (ℕ × ℕ)
  get_stats m none = none
  get_stats m (some old) = some (m.conversion_count, m.measurement_count)

module _ (q : Quantum) where
  open q use {State, Gate, gate_h, gate_phase, state_init, state_measure, gate_apply}

  -- ctrlxt_qc_init: `state` is what quantum_state_alloc returns, `buffer` what kzalloc returns.
  unfoldable pub init : Option State → Option (List ℕ) → Cmd (Qc State) ℤ
  unfolding free_both
  init none buffer m = ok enomem (record m {
    locked = false;
    conversion_count = 0;
    measurement_count = 0;
    quantum_state = empty;
  })
  init (some s) buffer m =
      let (ret, s') = state_init s 0 in
      let m' = record m {
        locked = false;
        conversion_count = 0;
        measurement_count = 0;
        quantum_state = live s';
      } in
      if is_neg ret then (free_both >> pure ret) m' else elim buffer [
        | none ↦
            (free_both >> pure ret) (record m' { buffer_size = 1024; classical_buffer = empty })
        | some b ↦ ok success (record m' { buffer_size = 1024; classical_buffer = live b })
      ]

  -- The gates for one byte, at the qubit of its index.
  unfoldable pub encode_byte : ℕ → ℕ → State → ℤ × State
  encode_byte i byte st =
      let (ret, st') = gate_apply gate_h st i in
      if is_neg ret
      then (ret, st')
      else if byte % 2 == 1
      then gate_apply gate_phase st' i
      else (ret, st')

  -- The loop of ctrlxt_qc_classical_to_quantum, from index `i` on.
  unfoldable pub encode : ℕ → List ℕ → State → ℤ × State
  encode i [] st = (success, st)
  encode i (byte ∷ rest) st =
      let (ret, st') = encode_byte i byte st in
      if is_neg ret then (ret, st') else encode (i + 1) rest st'

  unfoldable pub encode_all : List ℕ → Cmd (Qc State) ℤ
  encode_all [] m = ok success m
  encode_all (byte ∷ rest) m = elim m.quantum_state [
    | empty ↦ fault
    | freed ↦ fault
    | live st ↦
        let (ret, st') = encode 0 (byte ∷ rest) st in ok ret (record m { quantum_state = live st' })
  ]

  -- The end of both conversions: a failure is returned as it is, success is counted.
  unfoldable pub finish_conversion : ℤ → Cmd (Qc State) ℤ
  finish_conversion ret m =
      if is_neg ret
      then ok ret (record m { locked = false })
      else ok success
          (record m { conversion_count = atomic_inc m.conversion_count; locked = false })

  -- ctrlxt_qc_classical_to_quantum
  unfoldable pub classical_to_quantum : Option (List ℕ) → ℕ → Cmd (Qc State) ℤ
  classical_to_quantum none size m = ok einval m
  classical_to_quantum (some bytes) size m =
      if ltb m.buffer_size size
      then ok einval m
      else (do
        lock
        copy_in size bytes
        read ← read_buffer size
        ret ← encode_all read
        finish_conversion ret)
          m

  -- The loop of ctrlxt_qc_quantum_to_classical over the bytes that it overwrites.
  unfoldable pub measure_bytes : List ℕ → State → ℤ × List ℕ × State
  measure_bytes [] st = (success, [], st)
  measure_bytes (byte ∷ rest) st =
      let (ret, byte', st') = state_measure st byte in
      let (ret', rest', st'') = measure_bytes rest st' in
      if is_neg ret then (ret, byte' ∷ rest, st') else (ret', byte' ∷ rest', st'')

  unfoldable pub measure_all : List ℕ → Cmd (Qc State) (ℤ × List ℕ)
  measure_all [] m = ok (success, []) m
  measure_all (byte ∷ rest) m = elim m.quantum_state [
    | empty ↦ fault
    | freed ↦ fault
    | live st ↦
        let (ret, bytes, st') = measure_bytes (byte ∷ rest) st in
        ok (ret, bytes) (record m { quantum_state = live st' })
  ]

  unfoldable pub finish_measurement : ℤ → Cmd (Qc State) ℤ
  finish_measurement ret m =
      if is_neg ret
      then ok ret (record m { locked = false })
      else ok success
          (record m { measurement_count = atomic_inc m.measurement_count; locked = false })

  -- ctrlxt_qc_quantum_to_classical: the return code, and the caller's memory behind the call.
  unfoldable pub quantum_to_classical : Option (List ℕ) → ℕ → Cmd (Qc State) (ℤ × Option (List ℕ))
  quantum_to_classical none size m = ok (einval, none) m
  quantum_to_classical (some bytes) size m =
      if ltb m.buffer_size size
      then ok (einval, some bytes) m
      else if ltb (length bytes) size
      then fault
      else (do
        lock
        (ret, measured) ← measure_all (take size bytes)
        ret' ← finish_measurement ret
        pure (ret', some (measured ++ drop size bytes)))
          m

  -- The state behind a call of error correction.
  abbrev pub with_qec : Qc State → Run (Qec State) (ℤ × Slot State) → Run (Qc State) ℤ
  with_qec m (ok (ret, s) e) = ok ret (record m { quantum_state = s; qec = e })
  with_qec m fault = fault

  -- `if (ret < 0)`: the lock is given back and the code returned.
  abbrev pub gate_then : ℤ → Cmd (Qc State) ℤ → Cmd (Qc State) ℤ
  gate_then ret k m = if is_neg ret then ok ret (record m { locked = false }) else k m

  -- The call of error correction and the end of ctrlxt_qc_controlled_operation.
  unfoldable pub correct_then : State → Cmd (Qc State) ℤ
  correct_then st m =
      (do
        ret ← λ n. with_qec n (Qec.apply q (live st) n.qec)
        gate_then ret (λ n. ok success (record n { locked = false })))
        m

  -- The gate and what follows it, at the pointer that the interface holds.
  unfoldable pub controlled_gate : Gate → ℕ → Slot State → Cmd (Qc State) ℤ
  unfolding correct_then
  controlled_gate gate qubit empty m = fault
  controlled_gate gate qubit freed m = fault
  controlled_gate gate qubit (live st) m =
      let (ret, st') = gate_apply gate st qubit in
      gate_then ret (correct_then st') (record m { quantum_state = live st' })

  -- ctrlxt_qc_controlled_operation; of the control data only the test for NULL is made.
  unfoldable pub controlled_operation : Gate → ℕ → (control : Bool) → Cmd (Qc State) ℤ
  unfolding controlled_gate
  controlled_operation gate qubit false m = ok einval m
  controlled_operation gate qubit true m =
      (do lock; λ n. controlled_gate gate qubit n.quantum_state n) m

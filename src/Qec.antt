-- ===== src/Qec.antt =====
-- Quantum error correction, kernel/quantum/error_correction.c, over the interface of quantum.h.
-- `struct ctrlxt_qec` is the record `Qec`; its qdev field is never used and is left out. A call
-- that would pass a NULL or freed ancilla or syndrome to quantum.h is a fault.
pub mod Apply
pub mod Setup
pub mod Counts
use ctrlxt_kernel.Base.{
  ℕ, ◌*◌, ◌%◌, ◌^◌, Bool, true, false, Option, none, some, ℤ, pos, negsuc, zero, suc, is_neg, ◌==◌,
  ◌||◌, if◌then◌else◌,
}
use ctrlxt_kernel.Kernel.Errno.{success, enomem, einval}
use ctrlxt_kernel.Kernel.Atomic.{atomic_inc, int_div}
use ctrlxt_kernel.Kernel.Run.{Run, ok, fault, Cmd, pure, ◌>>=◌, ◌>>◌, modify}
use ctrlxt_kernel.Kernel.Slot.{Slot, empty, live, freed, slot, free_slot}
use ctrlxt_kernel.Quantum.{Quantum}

pub record Qec (State : Type 0) : Type 0 where
  pub ancilla : Slot State
  pub syndrome : Slot State
  pub locked : Bool
  pub error_count : ℕ
  pub correction_count : ℕ

module _ {S : Type 0} where
  abbrev pub lock : Cmd (Qec S) (Unit {0})
  lock m = if m.locked then fault else ok tt (record m { locked = true })

  abbrev pub unlock : Cmd (Qec S) (Unit {0})
  unlock m = ok tt (record m { locked = false })

  -- Frees both states: the label `error` of ctrlxt_qec_init, and the body of qec_exit.
  unfoldable pub free_states : Cmd (Qec S) (Unit {0})
  free_states m = elim (free_slot m.ancilla) [
    | none ↦ fault
    | some a ↦ elim (free_slot m.syndrome) [
      | none ↦ fault
      | some s ↦ ok tt (record m { ancilla = a; syndrome = s })
    ]
  ]

  abbrev start : Slot S → Slot S → Qec S
  start a s = record {
    ancilla = a;
    syndrome = s;
    locked = false;
    error_count = 0;
    correction_count = 0;
  }

-- `struct quantum_error_stats`
pub record Stats : Type 0 where
  pub error_count : ℕ
  pub correction_count : ℕ
  pub success_rate : ℕ

-- ctrlxt_qec_get_stats: the structure that the caller's pointer shows. A division by zero is a
-- fault.
unfoldable pub get_stats : {S : Type 0} → Option Stats → Cmd (Qec S) (Option Stats)
get_stats none m = ok none m
get_stats (some old) m =
    if m.error_count == 0
    then fault
    else ok
        (some (record {
          error_count = m.error_count;
          correction_count = m.correction_count;
          success_rate = int_div (m.correction_count * 100 % 2 ^ 32) m.error_count;
        }))
        m

module _ (q : Quantum) where
  open q use {
    State, Gate, gate_x, gate_y, gate_z, gate_cnot, state_init, state_measure_into, gate_apply,
    gate_apply_onto, state_get_value,
  }

  -- ctrlxt_qec_init; `a` and `s` are what the two calls of quantum_state_alloc return. The old
  -- contents of the static structure are overwritten.
  unfoldable pub init : Option State → Option State → Run (Qec State) ℤ
  unfolding free_states
  init none s = ok enomem (start empty (slot s))
  init (some a) none = ok enomem (start (live a) empty)
  init (some a) (some s) =
      let (ret, a') = state_init a 0 in
      if is_neg ret
      then (free_states >> pure ret) (start (live a') (live s))
      else (let (ret', s') = state_init s 0 in
          if is_neg ret'
          then (free_states >> pure ret') (start (live a') (live s'))
          else ok success (start (live a') (live s')))

  -- One CNOT of a data qubit onto the ancilla qubit of the same number.
  unfoldable pub cnot : ℕ → State → Cmd (Qec State) (ℤ × State)
  cnot k st m = elim m.ancilla [
    | empty ↦ fault
    | freed ↦ fault
    | live a ↦
        let (ret, st', a') = gate_apply_onto gate_cnot st k a k in
        ok (ret, st') (record m { ancilla = live a' })
  ]

  -- Measures the ancilla into the syndrome.
  unfoldable pub measure_ancilla : Cmd (Qec State) ℤ
  measure_ancilla m = elim m.ancilla [
    | empty ↦ fault
    | freed ↦ fault
    | live a ↦ elim m.syndrome [
      | empty ↦ fault
      | freed ↦ fault
      | live s ↦
          let (ret, a', s') = state_measure_into a s in
          ok ret (record m { ancilla = live a'; syndrome = live s' })
    ]
  ]

  -- `if (ret < 0) return ret;`
  abbrev pub or_return :
      ℤ × State → (State → Cmd (Qec State) (ℤ × State)) → Cmd (Qec State) (ℤ × State)
  or_return (ret, st) k = if is_neg ret then pure (ret, st) else k st

  -- The end of measure_syndrome.
  unfoldable pub count_error : State → Cmd (Qec State) (ℤ × State)
  count_error st = do
    modify λ m. record m { error_count = atomic_inc m.error_count }
    pure (success, st)

  -- measure_syndrome in its four calls: each goes on to the next unless it failed.
  unfoldable pub syndrome_measure : State → Cmd (Qec State) (ℤ × State)
  syndrome_measure st = do ret ← measure_ancilla; or_return (ret, st) count_error

  unfoldable pub syndrome_cnot2 : State → Cmd (Qec State) (ℤ × State)
  syndrome_cnot2 st = do r ← cnot 2 st; or_return r syndrome_measure

  unfoldable pub syndrome_cnot1 : State → Cmd (Qec State) (ℤ × State)
  syndrome_cnot1 st = do r ← cnot 1 st; or_return r syndrome_cnot2

  unfoldable pub measure_syndrome : State → Cmd (Qec State) (ℤ × State)
  measure_syndrome st = do r ← cnot 0 st; or_return r syndrome_cnot1

  -- The `switch` of apply_correction: the gate and the qubit that a syndrome calls for.
  unfoldable pub correction : ℤ → Option (Gate × ℕ)
  correction (pos n) =
      if n == 1
      then some (gate_x, 0)
      else if n == 2
      then some (gate_x, 1)
      else if n == 3
      then some (gate_x, 2)
      else if n == 4
      then some (gate_z, 0)
      else if n == 5
      then some (gate_z, 1)
      else if n == 6
      then some (gate_z, 2)
      else if n == 7
      then some (gate_y, 0)
      else none
  correction (negsuc n) = none

  abbrev pub correct : Option (Gate × ℕ) → State → ℤ × State
  correct none st = (success, st)
  correct (some (g, k)) st = gate_apply g st k

  unfoldable pub apply_correction : State → Cmd (Qec State) (ℤ × State)
  apply_correction st m = elim m.syndrome [
    | empty ↦ fault
    | freed ↦ fault
    | live s ↦ ok (correct (correction (state_get_value s)) st) m
  ]

  -- The end of ctrlxt_qec_apply.
  unfoldable pub count_correction : State → Cmd (Qec State) (ℤ × State)
  count_correction st = do
    modify λ m. record m { correction_count = atomic_inc m.correction_count }
    pure (success, st)

  unfoldable pub correct_counted : State → Cmd (Qec State) (ℤ × State)
  correct_counted st = do r ← apply_correction st; or_return r count_correction

  -- ctrlxt_qec_apply: the return code, and the state that the caller's pointer shows.
  unfoldable pub apply : Slot State → Cmd (Qec State) (ℤ × Slot State)
  apply empty m = ok (einval, empty) m
  apply freed m = fault
  apply (live st) m =
      (do
        lock
        r ← measure_syndrome st
        (ret, st') ← or_return r correct_counted
        unlock
        pure (ret, live st'))
        m

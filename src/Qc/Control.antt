-- ===== src/Qc/Control.antt =====
-- ctrlxt_qc_controlled_operation over error correction.
use ctrlxt_kernel.Base.{ℕ, ◌≡◌, refl, true, false, ℤ, is_neg, Bool-cases, inl, inr, ◌⊎◌}
use ctrlxt_kernel.Kernel.Errno.{success}
use ctrlxt_kernel.Kernel.Run.{Run, ok, and_then, Returns, returns}
use ctrlxt_kernel.Kernel.Slot.{Slot, live, is_live}
use ctrlxt_kernel.Quantum.{Quantum}
use ctrlxt_kernel.Qec.{Qec, apply}
use ctrlxt_kernel.Qec.Apply.{IsReady, Applied, apply-Applied}
use ctrlxt_kernel.Qc.{Qc, controlled_operation, controlled_gate, correct_then, with_qec, gate_then}

module _ (q : Quantum) where
  open q use {State, Gate, gate_apply}

  -- What the call leaves: both locks free, the quantum state allocated, error correction ready;
  -- it returns 0 or a negative code.
  pub record Controlled (r : ℤ) (m' : Qc State) : Type 0 where
    pub unlocked : m'.locked ≡ false
    pub qec_unlocked : m'.qec.locked ≡ false
    pub qec_ready : IsReady m'.qec
    pub alive : is_live m'.quantum_state ≡ true
    pub status : (r ≡ success) ⊎ (is_neg r ≡ true)

  correct_then-Controlled :
      (st : State) (m : Qc State)
      → IsReady m.qec
      → m.qec.locked ≡ false
      → Returns Controlled (correct_then q st m)
  unfolding correct_then
  correct_then-Controlled st m v u = go (apply q (live st) m.qec) (apply-Applied q st m.qec v u)
    where
      go :
          (r : Run (Qec State) (ℤ × Slot State))
          → Returns (Applied q m.qec) r
          → Returns Controlled (
              and_then
                (with_qec q m r)
                (λ ret. gate_then q ret (λ n. ok success (record n { locked = false }))))
      go r (returns {a = (ret, p)} {s = e} a) = elim (Bool-cases (is_neg ret)) [
        | inl neg ↦ rw neg (
            returns (record {
              unlocked = refl;
              qec_unlocked = a.unlocked;
              qec_ready = a.ready;
              alive = a.kept;
              status = inr neg;
            }))
        | inr fine ↦ rw fine (
            returns (record {
              unlocked = refl;
              qec_unlocked = a.unlocked;
              qec_ready = a.ready;
              alive = a.kept;
              status = inl refl;
            }))
      ]

  controlled_gate-Controlled :
      (gate : Gate) (qubit : ℕ) (st : State) (m : Qc State)
      → IsReady m.qec
      → m.qec.locked ≡ false
      → Returns Controlled (controlled_gate q gate qubit (live st) m)
  unfolding controlled_gate
  controlled_gate-Controlled gate qubit st m v w =
      elim (Bool-cases (is_neg (gate_apply gate st qubit).0)) [
        | inl neg ↦ rw neg (
            returns (record {
              unlocked = refl;
              qec_unlocked = w;
              qec_ready = record { ancilla = v.ancilla; syndrome = v.syndrome };
              alive = refl;
              status = inr neg;
            }))
        | inr fine ↦ rw fine (
            correct_then-Controlled (gate_apply gate st qubit).1
              (record m { quantum_state = live (gate_apply gate st qubit).1 }) v w)
      ]

  -- With both spinlocks free, the quantum state allocated and error correction ready, the
  -- operation ends without a fault in such a state again, whatever the gate and the calls of
  -- quantum.h return, and returns 0 or a negative code.
  pub controlled_operation-Controlled :
      (gate : Gate) (qubit : ℕ) (st : State) (m : Qc State)
      → m.quantum_state ≡ live st
      → m.locked ≡ false
      → IsReady m.qec
      → m.qec.locked ≡ false
      → Returns Controlled (controlled_operation q gate qubit true m)
  unfolding controlled_operation
  controlled_operation-Controlled gate qubit st m e u v w =
      simp (u, e) (controlled_gate-Controlled gate qubit st (record m { locked = true }) v w)

-- ===== src/Qec/Apply.antt =====
-- ctrlxt_qec_apply on every path: the lock, the counters and the return code.
use ctrlxt_kernel.Base.{
  ℕ, ◌≡◌, refl, true, false, ℤ, is_neg, is_zero, not-is_zero_of_neg, ◌⊎◌, inl, inr, if◌then◌else◌,
  Bool-cases, ap, ◌∙◌,
}
use ctrlxt_kernel.Kernel.Errno.{success}
use ctrlxt_kernel.Kernel.Atomic.{atomic_inc}
use ctrlxt_kernel.Kernel.Run.{Cmd, ◌>>=◌, Returns, returns, Returns-then}
use ctrlxt_kernel.Kernel.Slot.{Slot, live, is_live, live_of}
use ctrlxt_kernel.Quantum.{Quantum}
use ctrlxt_kernel.Qec.{
  Qec, cnot, measure_ancilla, correct, or_return, count_error, measure_syndrome, syndrome_cnot1,
  syndrome_cnot2, syndrome_measure, correction, apply_correction, count_correction, correct_counted,
  apply,
}

-- Both quantum states of the structure are allocated, as after ctrlxt_qec_init.
pub record IsReady {S : Type 0} (m : Qec S) : Type 0 where
  pub ancilla : is_live m.ancilla ≡ true
  pub syndrome : is_live m.syndrome ≡ true

record Keeps {S : Type 0} (m m' : Qec S) : Type 0 where
  ready : IsReady m'
  locked : m'.locked ≡ m.locked
  errors : m'.error_count ≡ m.error_count
  corrections : m'.correction_count ≡ m.correction_count

-- What measure_syndrome leaves: one more error counted exactly if it returns 0.
record Measured {S : Type 0} (m : Qec S) (r : ℤ × S) (m' : Qec S) : Type 0 where
  ready : IsReady m'
  locked : m'.locked ≡ m.locked
  errors : m'.error_count ≡ (if is_neg r.0 then m.error_count else atomic_inc m.error_count)
  corrections : m'.correction_count ≡ m.correction_count

module _ (q : Quantum) where
  open q use {State, state_get_value}

  cnot-Keeps :
      (k : ℕ) (st : State) (m : Qec State) → IsReady m → Returns (λ _. Keeps m) (cnot q k st m)
  unfolding cnot
  cnot-Keeps k st m v =
      let (a, e) = live_of m.ancilla v.ancilla in
      rw (e, cnot)
        (returns (record {
          ready = record { ancilla = refl; syndrome = v.syndrome };
          locked = refl;
          errors = refl;
          corrections = refl;
        }))

  measure_ancilla-Keeps : (m : Qec State) → IsReady m → Returns (λ _. Keeps m) (measure_ancilla q m)
  unfolding measure_ancilla
  measure_ancilla-Keeps m v =
      let (a, e) = live_of m.ancilla v.ancilla in
      let (s, f) = live_of m.syndrome v.syndrome in
      rw (e, f, measure_ancilla)
        (returns (record {
          ready = record { ancilla = refl; syndrome = refl };
          locked = refl;
          errors = refl;
          corrections = refl;
        }))

  Keeps-trans : {m n o : Qec State} → Keeps m n → Keeps n o → Keeps m o
  Keeps-trans v w = record {
    ready = w.ready;
    locked = w.locked ∙ v.locked;
    errors = w.errors ∙ v.errors;
    corrections = w.corrections ∙ v.corrections;
  }

  -- The rest of measure_syndrome behind one call.
  or_return-Measured :
      (m m' : Qec State) (r : ℤ × State) (k : State → Cmd (Qec State) (ℤ × State))
      → Keeps m m'
      → ((st : State) → Returns (Measured m) (k st m'))
      → Returns (Measured m) (or_return q r k m')
  or_return-Measured m m' (ret, st) k v next = elim (Bool-cases (is_neg ret)) [
    | inl n ↦ rw n (
        returns (record {
          ready = v.ready;
          locked = v.locked;
          errors = rw n v.errors;
          corrections = v.corrections;
        }))
    | inr p ↦ rw p (next st)
  ]

  count_error-Measured :
      (m m' : Qec State) (st : State) → Keeps m m' → Returns (Measured m) (count_error q st m')
  unfolding count_error
  count_error-Measured m m' st v =
      returns {a = (success, st)} {s = record m' { error_count = atomic_inc m'.error_count }}
        (record {
          ready = record { ancilla = v.ready.ancilla; syndrome = v.ready.syndrome };
          locked = v.locked;
          errors = ap atomic_inc v.errors;
          corrections = v.corrections;
        })

  -- One CNOT and what follows it.
  cnot-Measured :
      (k : ℕ) (st : State) (next : State → Cmd (Qec State) (ℤ × State)) (m m' : Qec State)
      → Keeps m m'
      → ((st' : State) (n : Qec State) → Keeps m n → Returns (Measured m) (next st' n))
      → Returns (Measured m) ((cnot q k st >>= λ r. or_return q r next) m')
  cnot-Measured k st next m m' v go =
      Returns-then (cnot-Keeps k st m' v.ready)
        λ r n w. or_return-Measured m n r next (Keeps-trans v w) (λ st'. go st' n (Keeps-trans v w))

  syndrome_measure-Measured :
      (st : State) (m m' : Qec State) → Keeps m m' → Returns (Measured m) (syndrome_measure q st m')
  unfolding syndrome_measure
  syndrome_measure-Measured st m m' v = Returns-then (measure_ancilla-Keeps m' v.ready) λ ret n w.
      or_return-Measured m n (ret, st) (count_error q) (Keeps-trans v w)
        (λ st'. count_error-Measured m n st' (Keeps-trans v w))

  Keeps-refl : (m : Qec State) → IsReady m → Keeps m m
  Keeps-refl m v = record { ready = v; locked = refl; errors = refl; corrections = refl }

  measure_syndrome-Measured :
      (st : State) (m : Qec State) → IsReady m → Returns (Measured m) (measure_syndrome q st m)
  unfolding measure_syndrome syndrome_cnot1 syndrome_cnot2
  measure_syndrome-Measured st m v =
      cnot-Measured 0 st (syndrome_cnot1 q) m m (Keeps-refl m v) λ st0 m0 w0.
        cnot-Measured 1 st0 (syndrome_cnot2 q) m m0 w0 λ st1 m1 w1.
          cnot-Measured 2 st1 (syndrome_measure q) m m1 w1
            λ st2 m2 w2. syndrome_measure-Measured st2 m m2 w2

  -- The lock taken before is no part of what is measured.
  record Counted (m : Qec State) (r : ℤ × State) (m' : Qec State) : Type 0 where
    ready : IsReady m'
    errors : m'.error_count ≡ (if is_neg r.0 then m.error_count else atomic_inc m.error_count)
    corrections : m'.correction_count ≡ m.correction_count

  -- What ctrlxt_qec_apply leaves behind: the lock is free, the states are still allocated, a
  -- correction is counted exactly if it returns 0, and each other code is negative; an error is
  -- counted with each correction, and at most one.
  pub record Applied (m : Qec State) (r : ℤ × Slot State) (m' : Qec State) : Type 0 where
    pub ready : IsReady m'
    pub unlocked : m'.locked ≡ false
    pub status : (r.0 ≡ success) ⊎ (is_neg r.0 ≡ true)
    pub kept : is_live r.1 ≡ true
    pub corrections :
        m'.correction_count
        ≡ (if is_zero r.0 then atomic_inc m.correction_count else m.correction_count)
    pub errors :
        (m'.error_count ≡ atomic_inc m.error_count)
        ⊎ ((m'.error_count ≡ m.error_count) × (is_zero r.0 ≡ false))

  -- The end of ctrlxt_qec_apply behind the correcting gate.
  count_correction-Applied :
      (r : ℤ × State) (m n : Qec State)
      → IsReady n
      → n.error_count ≡ atomic_inc m.error_count
      → n.correction_count ≡ m.correction_count
      → Returns
          (λ r' m'. Applied m (r'.0, live r'.1) (record m' { locked = false }))
          (or_return q r (count_correction q) n)
  unfolding count_correction
  count_correction-Applied (ret, st) m n v e c = elim (Bool-cases (is_neg ret)) [
    | inl neg ↦ rw neg (
        returns (record {
          ready = record { ancilla = v.ancilla; syndrome = v.syndrome };
          unlocked = refl;
          status = inr neg;
          kept = refl;
          corrections = rw (not-is_zero_of_neg ret neg) c;
          errors = inl e;
        }))
    | inr fine ↦ rw fine (
        returns {a = (success, st)} (record {
          ready = record { ancilla = v.ancilla; syndrome = v.syndrome };
          unlocked = refl;
          status = inl refl;
          kept = refl;
          corrections = ap atomic_inc c;
          errors = inl e;
        }))
  ]

  correct_counted-Applied :
      (st : State) (m n : Qec State)
      → IsReady n
      → n.error_count ≡ atomic_inc m.error_count
      → n.correction_count ≡ m.correction_count
      → Returns
          (λ r m'. Applied m (r.0, live r.1) (record m' { locked = false }))
          (correct_counted q st n)
  unfolding correct_counted apply_correction
  correct_counted-Applied st m n v e c =
      let (s, f) = live_of n.syndrome v.syndrome in
      let r = correct q (correction q (state_get_value s)) st in
      rw (f, apply_correction) (count_correction-Applied r m _ v e c)

  -- What apply does behind measure_syndrome.
  after_syndrome :
      (r : ℤ × State) (m n : Qec State)
      → Counted m r n
      → Returns
          (λ r' m'. Applied m (r'.0, live r'.1) (record m' { locked = false }))
          (or_return q r (correct_counted q) n)
  after_syndrome (ret, st) m n w = elim (Bool-cases (is_neg ret)) [
    | inl neg ↦ rw neg (
        returns (record {
          ready = record { ancilla = w.ready.ancilla; syndrome = w.ready.syndrome };
          unlocked = refl;
          status = inr neg;
          kept = refl;
          corrections = rw (not-is_zero_of_neg ret neg) w.corrections;
          errors = inr (rw neg at w.errors, not-is_zero_of_neg ret neg);
        }))
    | inr fine ↦
        rw fine (correct_counted-Applied st m n w.ready (rw fine at w.errors) w.corrections)
  ]

  -- With both states of error correction allocated and the lock free, ctrlxt_qec_apply ends
  -- without a fault, whatever the calls of quantum.h return: the lock is free, the states are
  -- still allocated, a correction is counted exactly if it returns 0, each other code is negative,
  -- and an error is counted with each correction, and at most one.
  pub apply-Applied :
      (st : State) (m : Qec State)
      → IsReady m
      → m.locked ≡ false
      → Returns (Applied m) (apply q (live st) m)
  unfolding apply
  apply-Applied st m v u = simp u (
      Returns-then
        (measure_syndrome-Measured st (record m { locked = true })
          (record { ancilla = v.ancilla; syndrome = v.syndrome }))
        λ r n w.
          Returns-then
            (after_syndrome r m n
              (record { ready = w.ready; errors = w.errors; corrections = w.corrections }))
            λ r' m' a. returns a)

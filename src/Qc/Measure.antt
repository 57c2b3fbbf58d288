-- ===== src/Qc/Measure.antt =====
-- ctrlxt_qc_quantum_to_classical: what it writes to the caller's memory.
use ctrlxt_kernel.Base.{
  ℕ, ◌≤◌, ◌≡◌, refl, true, false, some, List, [], ◌∷◌, ◌++◌, ℤ, Option, is_neg, arith,
  if◌then◌else◌, Bool-cases, ltb-false, length, take, drop, length-append, length-take,
  length-take-drop, drop-append, inl, inr, ◌∙◌, ap, ◌⊎◌,
}
use ctrlxt_kernel.Kernel.Errno.{success}
use ctrlxt_kernel.Kernel.Atomic.{atomic_inc}
use ctrlxt_kernel.Kernel.Run.{ok, Returns, returns, Returns-then}
use ctrlxt_kernel.Kernel.Slot.{live, is_live}
use ctrlxt_kernel.Quantum.{Quantum}
use ctrlxt_kernel.Qc.{Qc, measure_bytes, measure_all, finish_measurement, quantum_to_classical}
use ctrlxt_kernel.Qc.Convert.{IsReady}

module _ (q : Quantum) where
  open q use {State, state_measure}

  length-measure_bytes :
      (bytes : List ℕ) (st : State) → length (measure_bytes q bytes st).1 ≡ length bytes
  unfolding measure_bytes
  length-measure_bytes [] st = refl
  length-measure_bytes (b ∷ rest) st =
      ground (arith, length-measure_bytes rest (state_measure st b).2)

  -- What the call leaves: memory of the same length, unchanged past `size`; the measurement is
  -- counted exactly if the call returns 0, each other code is negative, and the lock is free.
  pub record Measured (bytes : List ℕ) (size : ℕ) (m : Qc State) (r : ℤ × Option (List ℕ))
      (m' : Qc State) : Type 0 where
    pub unlocked : m'.locked ≡ false
    pub status : (r.0 ≡ success) ⊎ (is_neg r.0 ≡ true)
    pub counted :
        m'.measurement_count
        ≡ (if is_neg r.0 then m.measurement_count else atomic_inc m.measurement_count)
    pub alive : is_live m'.quantum_state ≡ true
    pub written :
        (bytes' : List ℕ) × (r.1 ≡ some bytes')
        × (length bytes' ≡ length bytes)
        × (drop size bytes' ≡ drop size bytes)

  measure_all-bytes :
      (bytes : List ℕ) (st : State) (m : Qc State)
      → m.quantum_state ≡ live st
      → let r = measure_bytes q bytes st in
        measure_all q bytes m ≡ ok (r.0, r.1) (record m { quantum_state = live r.2 })
  unfolding measure_all measure_bytes
  measure_all-bytes [] st m e = ground arith
  measure_all-bytes (b ∷ rest) st m e = ground arith

  finish_measurement-Measured :
      (bytes old : List ℕ) (size : ℕ) (r : ℤ × List ℕ × State) (m m' : Qc State)
      → size ≤ length bytes
      → length r.1 ≡ size
      → m'.measurement_count ≡ m.measurement_count
      → is_live m'.quantum_state ≡ true
      → Returns
          (λ ret n. Measured bytes size m (ret, some (r.1 ++ drop size bytes)) n)
          (finish_measurement q r.0 m')
  unfolding finish_measurement
  finish_measurement-Measured bytes old size (ret, new, st) m m' enough len same alive =
      let written : (length (new ++ drop size bytes) ≡ length bytes) = omega (
        arith,
        length-append new (drop size bytes),
        length-take-drop size bytes,
        length-take size bytes enough,
      ) in
      let kept : drop size (new ++ drop size bytes) ≡ drop size bytes =
        rw len at (drop-append new (drop size bytes)) in
      elim (Bool-cases (is_neg ret)) [
        | inl n ↦ rw n (
            returns (record {
              unlocked = refl;
              status = inr n;
              counted = rw n same;
              alive = alive;
              written = (new ++ drop size bytes, refl, written, kept);
            }))
        | inr p ↦ rw p (
            returns (record {
              unlocked = refl;
              status = inl refl;
              counted = ap atomic_inc same;
              alive = alive;
              written = (new ++ drop size bytes, refl, written, kept);
            }))
      ]

  -- In a ready interface, and for at most as many bytes as the buffer and the caller's memory
  -- hold, the call writes only the first `size` bytes, counts the measurement exactly if it
  -- returns 0, returns a negative code otherwise, and leaves the lock free and the quantum state
  -- allocated.
  pub quantum_to_classical-Measured :
      (bytes old : List ℕ) (size : ℕ) (st : State) (m : Qc State)
      → IsReady m st old
      → size ≤ m.buffer_size
      → size ≤ length bytes
      → Returns (Measured bytes size m) (quantum_to_classical q (some bytes) size m)
  unfolding quantum_to_classical
  quantum_to_classical-Measured bytes old size st m v fits enough =
      let m' : Qc State = record m { locked = true } in
      let r = measure_bytes q (take size bytes) st in
      let len : length r.1 ≡ size =
        length-measure_bytes (take size bytes) st ∙ length-take size bytes enough in
      simp
        (
          ltb-false m.buffer_size size fits,
          ltb-false (length bytes) size enough,
          v.unlocked,
          measure_all-bytes (take size bytes) st m' v.state,
        )
        (Returns-then
          (finish_measurement-Measured bytes old size r m (record m' { quantum_state = live r.2 })
            enough len refl refl)
          λ ret n w. returns w)

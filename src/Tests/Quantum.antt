-- ===== src/Tests/Quantum.antt =====
-- Runs of error correction and of the quantum-classical interface, over a quantum.h whose states
-- are numbers: kernel/quantum/error_correction.c and kernel/quantum/quantum_classical.c.
use ctrlxt_kernel.Base.{
  ℕ, ◌+◌, ◌≡◌, refl, true, false, none, some, List, [], ◌∷◌, ℤ, pos, arith, length, is_neg,
  if◌then◌else◌, ltb,
}
use ctrlxt_kernel.Kernel.Errno.{success, einval}
use ctrlxt_kernel.Kernel.Run.{ok, fault, Returns}
use ctrlxt_kernel.Kernel.Slot.{live}
use ctrlxt_kernel.Quantum.{Quantum}
use ctrlxt_kernel.Qec.{Qec, apply, init}
use ctrlxt_kernel.Qec.Apply.{Applied, apply-Applied}
use ctrlxt_kernel.Qec.Counts.{IsSound, apply_all, apply_all-IsSound}
use ctrlxt_kernel.Qc.{
  Qc, encode, classical_to_quantum, quantum_to_classical, controlled_operation, free_both,
}
use ctrlxt_kernel.Qc
use ctrlxt_kernel.Qc.Convert.{
  IsReady, run_gates, gates_of, converted, classical_to_quantum-converted,
}
use ctrlxt_kernel.Qc.Measure.{Measured, quantum_to_classical-Measured}
use ctrlxt_kernel.Qc.Lifecycle.{init_hides_failure}
use ctrlxt_kernel.Qc.Control.{Controlled, controlled_operation-Controlled}

-- A gate adds its number to the state; a gate on a qubit past 100 fails.
abbrev pub toy : Quantum
toy = record {
  State = ℕ;
  Gate = ℕ;
  gate_h = 1;
  gate_x = 2;
  gate_y = 3;
  gate_z = 4;
  gate_phase = 5;
  gate_cnot = 6;
  state_init = λ s v. (success, v);
  state_measure = λ s b. (success, s, s);
  state_measure_into = λ s r. (success, s, s);
  gate_apply = λ g s k. if ltb 100 k then (einval, s) else (success, s + g);
  gate_apply_onto = λ g s k t j. (success, s, t + g);
  state_get_value = λ s. pos s;
}

abbrev pub ready_qec : Qec ℕ
ready_qec = record {
  ancilla = live 0;
  syndrome = live 0;
  locked = false;
  error_count = 0;
  correction_count = 0;
}

abbrev pub ready_qc : Qc ℕ
ready_qc = record {
  quantum_state = live 3;
  classical_buffer = live (0 ∷ 0 ∷ 0 ∷ 0 ∷ []);
  buffer_size = 4;
  locked = false;
  conversion_count = 0;
  measurement_count = 0;
  qec = ready_qec;
}

ready_qc-IsReady : IsReady ready_qc 3 (0 ∷ 0 ∷ 0 ∷ 0 ∷ [])
ready_qc-IsReady = record { state = refl; buffer = refl; sized = refl; unlocked = refl }

apply-Applied_example : Returns (Applied toy ready_qec) (apply toy (live 2) ready_qec)
apply-Applied_example =
    apply-Applied toy 2 ready_qec (record { ancilla = refl; syndrome = refl }) refl

apply_all-IsSound_example : Returns (λ _. IsSound 3) (apply_all toy (1 ∷ 2 ∷ 3 ∷ []) ready_qec)
apply_all-IsSound_example =
    apply_all-IsSound toy (1 ∷ 2 ∷ 3 ∷ []) 0 ready_qec
      (record {
        ready = record { ancilla = refl; syndrome = refl };
        unlocked = refl;
        ordered = omega arith;
        bounded = omega arith;
      })
      (omega arith)

toy-init : init toy (some 4) (some 5) ≡ ok success ready_qec
unfolding init
toy-init = refl

classical_to_quantum-converted_example :
    let r = run_gates toy (gates_of toy 0 (5 ∷ 6 ∷ [])) 3 in
    classical_to_quantum toy (some (5 ∷ 6 ∷ [])) 2 ready_qc
    ≡ ok (if is_neg r.0 then r.0 else success) (converted toy (5 ∷ 6 ∷ 0 ∷ 0 ∷ []) r.0 r.1 ready_qc)
classical_to_quantum-converted_example =
    classical_to_quantum-converted toy (5 ∷ 6 ∷ []) (0 ∷ 0 ∷ 0 ∷ 0 ∷ []) 2 3 ready_qc
      ready_qc-IsReady (omega arith) (omega arith)

quantum_to_classical-Measured_example :
    Returns
      (Measured toy (5 ∷ 6 ∷ 7 ∷ []) 2 ready_qc)
      (quantum_to_classical toy (some (5 ∷ 6 ∷ 7 ∷ [])) 2 ready_qc)
quantum_to_classical-Measured_example =
    quantum_to_classical-Measured toy (5 ∷ 6 ∷ 7 ∷ []) (0 ∷ 0 ∷ 0 ∷ 0 ∷ []) 2 3 ready_qc
      ready_qc-IsReady (omega arith) (omega arith)

init_hides_failure_example :
    (ret : ℤ) × (m' : Qc ℕ) × (Qc.init toy (some 4) none ready_qc ≡ ok ret m')
    × (is_neg ret ≡ false)
    × (free_both m' ≡ fault)
    × (classical_to_quantum toy (some (1 ∷ [])) 1 m' ≡ fault)
    × (quantum_to_classical toy (some (1 ∷ [])) 1 m' ≡ fault)
init_hides_failure_example = init_hides_failure toy 4 ready_qc (1 ∷ []) 0 refl (omega arith)

controlled_operation-Controlled_example :
    Returns (Controlled toy) (controlled_operation toy 2 5 true ready_qc)
controlled_operation-Controlled_example =
    controlled_operation-Controlled toy 2 5 3 ready_qc refl refl
      (record { ancilla = refl; syndrome = refl }) refl

-- A buffer of the given size.
zeros : ℕ → List ℕ
zeros ℕ.zero = []
zeros (ℕ.suc n) = 0 ∷ zeros n

length-zeros : (n : ℕ) → length (zeros n) ≡ n
unfolding zeros
length-zeros ℕ.zero = refl
length-zeros (ℕ.suc n) = ground (arith, length-zeros n)

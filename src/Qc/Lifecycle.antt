-- ===== src/Qc/Lifecycle.antt =====
-- ctrlxt_qc_init and qc_exit.
use ctrlxt_kernel.Base.{
  ℕ, ◌<◌, ◌≤◌, ◌≡◌, refl, [], ◌∷◌, false, none, some, List, ℤ, is_neg, arith, length, suc,
}
use ctrlxt_kernel.Kernel.Errno.{success}
use ctrlxt_kernel.Kernel.Run.{ok, fault, Returns, returns}
use ctrlxt_kernel.Kernel.Slot.{empty, live, freed}
use ctrlxt_kernel.Quantum.{Quantum}
use ctrlxt_kernel.Qc.{
  Qc, init, free_both, classical_to_quantum, copy_in, quantum_to_classical, measure_all,
}
use ctrlxt_kernel.Qc.Convert.{IsReady}

module _ (q : Quantum) where
  open q use {State, state_init}

  -- With both allocations made and the quantum state initialised, ctrlxt_qc_init returns 0 and
  -- leaves the interface ready with both counters 0; unloading then frees both allocations.
  pub init-IsReady :
      (s : State) (b : List ℕ) (m : Qc State)
      → length b ≡ 1024
      → is_neg (state_init s 0).0 ≡ false
      → (m' : Qc State) × (init q (some s) (some b) m ≡ ok success m')
        × IsReady m' (state_init s 0).1 b
        × (m'.conversion_count ≡ 0)
        × (m'.measurement_count ≡ 0)
        × Returns (λ _ n. (n.quantum_state ≡ freed) × (n.classical_buffer ≡ freed)) (free_both m')
  unfolding init free_both
  init-IsReady s b m len good = (
    record m {
      locked = false;
      conversion_count = 0;
      measurement_count = 0;
      quantum_state = live (state_init s 0).1;
      buffer_size = 1024;
      classical_buffer = live b;
    },
    rw good,
    record { state = refl; buffer = refl; sized = len; unlocked = refl },
    refl,
    refl,
    returns (refl, refl),
  )

  -- A conversion of at least one byte reads through the buffer, or through the quantum state.
  classical_to_quantum_fault :
      (m : Qc State) (bytes : List ℕ) (n : ℕ)
      → m.locked ≡ false
      → m.classical_buffer ≡ empty
      → suc n ≤ m.buffer_size
      → classical_to_quantum q (some bytes) (suc n) m ≡ fault
  unfolding classical_to_quantum copy_in
  classical_to_quantum_fault m bytes n free none_yet small = ground arith

  quantum_to_classical_fault :
      (m : Qc State) (bytes : List ℕ) (n : ℕ)
      → m.locked ≡ false
      → m.quantum_state ≡ freed
      → suc n ≤ m.buffer_size
      → quantum_to_classical q (some bytes) (suc n) m ≡ fault
  unfolding quantum_to_classical measure_all
  quantum_to_classical_fault m [] n free gone small = ground arith
  quantum_to_classical_fault m (byte ∷ rest) n free gone small = ground arith

  -- When the buffer cannot be allocated, ctrlxt_qc_init frees the quantum state and still returns
  -- the code of the successful quantum_state_init, which is no error; unloading then frees the
  -- quantum state again, a fault, and any conversion of 1 to 1024 bytes is a fault too, in either
  -- direction.
  pub init_hides_failure :
      (s : State) (m : Qc State) (bytes : List ℕ) (n : ℕ)
      → is_neg (state_init s 0).0 ≡ false
      → n < 1024
      → (ret : ℤ) × (m' : Qc State) × (init q (some s) none m ≡ ok ret m')
        × (is_neg ret ≡ false)
        × (free_both m' ≡ fault)
        × (classical_to_quantum q (some bytes) (suc n) m' ≡ fault)
        × (quantum_to_classical q (some bytes) (suc n) m' ≡ fault)
  unfolding init free_both
  init_hides_failure s m bytes n good small = (
    (state_init s 0).0,
    record m {
      locked = false;
      conversion_count = 0;
      measurement_count = 0;
      quantum_state = freed;
      buffer_size = 1024;
      classical_buffer = empty;
    },
    rw good,
    good,
    refl,
    classical_to_quantum_fault _ bytes n refl refl small,
    quantum_to_classical_fault _ bytes n refl refl small,
  )

-- ===== src/Quantum.antt =====
-- The interface of quantum.h, which the sources include and the repository does not hold: the
-- quantum states, the gates, and the calls on them. Every client takes it as a parameter. A call
-- returns its status and the states that it leaves.
use ctrlxt_kernel.Base.{ℕ, ℤ}

pub record Quantum : Type 1 where
  pub State : Type 0
  pub Gate : Type 0
  pub gate_h : Gate
  pub gate_x : Gate
  pub gate_y : Gate
  pub gate_z : Gate
  pub gate_phase : Gate
  pub gate_cnot : Gate
  -- quantum_state_init(state, value)
  pub state_init : State → ℕ → ℤ × State
  -- quantum_state_measure(state, result) with a byte for the result: the byte before, and behind
  pub state_measure : State → ℕ → ℤ × ℕ × State
  -- quantum_state_measure(state, result) with a quantum state for the result
  pub state_measure_into : State → State → ℤ × State × State
  -- quantum_gate_apply(gate, state, qubit, NULL, 0)
  pub gate_apply : Gate → State → ℕ → ℤ × State
  -- quantum_gate_apply(gate, state, qubit, target, target_qubit)
  pub gate_apply_onto : Gate → State → ℕ → State → ℕ → ℤ × State × State
  -- quantum_state_get_value(state)
  pub state_get_value : State → ℤ

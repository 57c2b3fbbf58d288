-- ===== src/Qdev/Gates.antt =====
-- quantum_apply_gate and quantum_measure: which calls they accept.

use ctrlxt_kernel.Base.{
  subst, ℕ, ◌≡◌, ◌<◌, refl, false, inl, inr, Option, none, some, arith, Option-cases, Bool-cases,
  has, Distinct, has-erase_self, erase,
}
use ctrlxt_kernel.Kernel.Errno.{success}
use ctrlxt_kernel.Kernel.Run.{state_of, ok, pure, ◌>>=◌}
use ctrlxt_kernel.Qdev.{QDevice, Core, load, device_cleanup, apply_gate, measure}

-- A measurement with a place for its result returns the code that a gate on that qubit returns,
-- whatever its type, faults where it faults, and leaves the result as it was.
pub measure-apply_gate :
    (dev : Option ℕ) (qubit gate_type r : ℕ) (m : Core)
    → measure dev qubit (some r) m
      ≡ (apply_gate dev qubit gate_type >>= λ code. pure (code, some r)) m
unfolding measure apply_gate
measure-apply_gate none qubit g r m = refl
measure-apply_gate (some a) qubit g r m = elim (Option-cases (m.heap a)) [
  | inl e ↦ rw (e, load) refl
  | inr (d, e) ↦ rw (e, load) refl
]

-- Cleaning up a device with a quantum state frees the state and keeps the pointer to it, where no
-- state is allocated twice and the clean-up does not fault: the device still accepts a gate on each
-- of its qubits.
pub cleanup-apply_gate :
    (a s qubit gate_type : ℕ) (d : QDevice) (m n : Core)
    → m.heap a ≡ some d
    → d.quantum_state ≡ some s
    → Distinct m.states
    → qubit < d.qubit_count
    → device_cleanup (some a) m ≡ ok tt n
    → (has s n.states ≡ false) × (apply_gate (some a) qubit gate_type n ≡ ok success n)
unfolding device_cleanup apply_gate
cleanup-apply_gate a s qubit g d m n e f apart lo h = elim (Bool-cases (has s m.states)) [
  | inr no_state ↦ ground (arith, e, f, no_state, h)
  | inl held ↦ elim (Bool-cases (has a m.devices)) [
    | inr unlisted ↦ ground (arith, e, f, held, unlisted, h)
    | inl listed ↦
        let same : ok tt (record m { states = erase s m.states; devices = erase a m.devices })
            ≡ ok tt n =
          (rw (e, load, f, held, listed) at h) in
        subst (λ x. (has s x.states ≡ false) × (apply_gate (some a) qubit g x ≡ ok success x))
          (state_of same) (has-erase_self s m.states apart, rw (e, load, f) (ground arith))
  ]
]

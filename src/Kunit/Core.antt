-- ===== src/Kunit/Core.antt =====
-- The tests of kernel/tests/test_kernel.c. Their devices are on the stack: `dev` is the address,
-- and the object is gone when the test returns.
use ctrlxt_kernel.Base.{
  ℕ, ◌≡◌, refl, Bool, true, false, Option, none, some, List, [], ◌∷◌, is_zero, has,
}
use ctrlxt_kernel.Kernel.Run.{
  ok, fault, Cmd, pure, ◌>>=◌, ◌>>◌, Returns, returns, write, write-read,
}
use ctrlxt_kernel.Qdev.{
  QDevice, Core, load, store, device_init, device_cleanup, apply_gate, measure, exit, exit_devices,
}
use ctrlxt_kernel.Boot.{CtrlxtKernel, uhal_init}
use ctrlxt_kernel.Kunit.{all_true}

unfoldable pub test_uhal_init : Cmd CtrlxtKernel (List Bool)
test_uhal_init m = (do ret ← uhal_init; pure (is_zero ret ∷ [])) m

-- The device of the tests: four qubits.
abbrev pub test_device : QDevice
test_device = record { qubit_count = 4; quantum_state = none }

abbrev pub leave : ℕ → Cmd Core (Unit {0})
leave dev m = ok tt (record m { heap = write m.heap dev none })

-- KUNIT_EXPECT_NOT_NULL
abbrev pub not_null : Option ℕ → Bool
not_null none = false
not_null (some s) = true

-- `state` is what kzalloc returns.
unfoldable pub test_quantum_device_init : (dev : ℕ) → (state : Option ℕ) → Cmd Core (List Bool)
test_quantum_device_init dev state m =
    (do
      store dev test_device
      ret ← device_init (some dev) state
      d ← load dev
      leave dev
      pure (is_zero ret ∷ not_null d.quantum_state ∷ []))
      m

-- The word `result` is on the stack too.
unfoldable pub test_quantum_gate_ops :
    (dev : ℕ) → (state : Option ℕ) → (result : ℕ) → Cmd Core (List Bool)
test_quantum_gate_ops dev state result m =
    (do
      store dev test_device
      device_init (some dev) state
      ret1 ← apply_gate (some dev) 0 1
      ret2 ← measure (some dev) 0 (some result)
      leave dev
      pure (is_zero ret1 ∷ is_zero (ret2.0) ∷ []))
      m

-- What the tests leave behind: their device listed, and gone.
module _ (dev s : ℕ) (m : Core) where
  abbrev left_listed : Core
  left_listed = record {
    devices = dev ∷ m.devices;
    heap =
        write
          (write (write m.heap dev (some test_device)) dev
            (some (record test_device { quantum_state = some s })))
          dev none;
    states = s ∷ m.states;
  }

  exit-left_listed : exit left_listed ≡ fault
  unfolding exit exit_devices device_cleanup
  exit-left_listed = rw (load, write-read) refl

  -- Where kzalloc succeeds and no listed device is at the address of the test's, every expectation
  -- of test_quantum_device_init holds. The test leaves its device, which is on the stack, in the
  -- list: quantum_exit behind it reads an object that is gone, a fault.
  pub test_quantum_device_init-exit_fault :
      has dev m.devices ≡ false
      → Returns
          (λ es n. (all_true es ≡ true) × (exit n ≡ fault))
          (test_quantum_device_init dev (some s) m)
  unfolding test_quantum_device_init device_init
  test_quantum_device_init-exit_fault u =
      rw (load, write-read) (rw u (rw (load, write-read) (returns (refl, exit-left_listed))))

  -- Where kzalloc succeeds and no listed device is at the address of the test's, every expectation
  -- of test_quantum_gate_ops holds.
  pub test_quantum_gate_ops-passes :
      (result : ℕ)
      → has dev m.devices ≡ false
      → Returns (λ es n. all_true es ≡ true) (test_quantum_gate_ops dev (some s) result m)
  unfolding test_quantum_gate_ops device_init apply_gate measure
  test_quantum_gate_ops-passes result u =
      rw (load, write-read) (rw u (rw (load, write-read) (rw (load, write-read) (returns refl))))

-- test_uhal_init passes from every state.
pub test_uhal_init-passes :
    (m : CtrlxtKernel) → Returns (λ es n. all_true es ≡ true) (test_uhal_init m)
unfolding test_uhal_init uhal_init
test_uhal_init-passes m = returns refl

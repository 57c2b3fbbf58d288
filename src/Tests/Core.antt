-- ===== src/Tests/Core.antt =====
-- Runs of the quantum core, the start of the kernel, the driver of the hardware abstraction layer
-- and the architecture support.
use ctrlxt_kernel.Base.{
  ℕ, ◌≡◌, refl, Option, none, some, List, [], ◌∷◌, pos, leb, ◌==◌, if◌then◌else◌, arith,
}
use ctrlxt_kernel.Kernel.Errno.{success, ebusy, einval}
use ctrlxt_kernel.Kernel.Pointer.{made}
use ctrlxt_kernel.Kernel.Run.{ok, Returns, write}
use ctrlxt_kernel.Kernel.History.{Lawful, run_all}
use ctrlxt_kernel.Qdev.{QDevice, Core, device_init, device_cleanup, apply_gate, measure, exit}
use ctrlxt_kernel.Qdev.Owned.{IsSound}
use ctrlxt_kernel.Qdev.History.{
  CoreOp, inits, cleans, gates, measures, step, Permitted, IsEmpty, loaded, run_all-exit,
}
use ctrlxt_kernel.Uhal.{Registry, driver_init, init_device, init_chrdev}
use ctrlxt_kernel.Uhal.Loading.{InitOutcome, driver_init-undoes}
use ctrlxt_kernel.Arch.{Cpufreq, CpufreqLaws, Cpu}

-- Two devices of four qubits, that no call has initialised.
abbrev two_devices : ℕ → Option QDevice
two_devices a = if leb a 1 then some (record { qubit_count = 4; quantum_state = none }) else none

abbrev core_ops : List CoreOp
core_ops =
    inits (some 0) (some 50)
    ∷ inits (some 1) (some 51)
    ∷ gates (some 1) 3 0
    ∷ measures (some 0) 2 none
    ∷ cleans (some 0)
    ∷ inits (some 0) none
    ∷ inits none (some 60)
    ∷ []

core_ops-Lawful : Lawful step Permitted core_ops (loaded two_devices)
unfolding step device_init device_cleanup apply_gate measure write
core_ops-Lawful = (
  ((_, refl), refl, refl),
  (
    ((_, refl), refl, refl),
    ((_, refl), ((_, refl), (refl, (((_, refl), refl, tt), ((tt, tt, refl), tt))))),
  ),
)

run_all-exit_example :
    Returns
      (λ _ m. IsSound m × Returns (λ _. IsEmpty) (exit m))
      (run_all step core_ops (loaded two_devices))
run_all-exit_example = run_all-exit two_devices core_ops core_ops-Lawful

abbrev one_listed : Core
one_listed = record {
  devices = 1 ∷ [];
  heap = λ a. some (record { qubit_count = 4; quantum_state = some 51 });
  states = 51 ∷ [];
}

abbrev cleaned_up : Core
cleaned_up = record one_listed { devices = []; states = [] }

cleanup_run : device_cleanup (some 1) one_listed ≡ ok tt cleaned_up
unfolding device_cleanup
cleanup_run = refl

abbrev registry : Registry
registry = record { classes = 3; devices = 5; majors = 10 ∷ 240 ∷ [] }

driver_init-undoes_example :
    InitOutcome ebusy registry
      (driver_init (made 1) (made 2) ebusy registry).0
      (driver_init (made 1) (made 2) ebusy registry).1
driver_init-undoes_example = driver_init-undoes (made 1) (made 2) ebusy registry tt tt

abbrev loaded_registry : Registry
loaded_registry = record { classes = 4; devices = 6; majors = 241 ∷ 10 ∷ 240 ∷ [] }

driver_run : driver_init (made 1) (made 2) (pos 241) registry ≡ (success, loaded_registry)
unfolding driver_init init_device init_chrdev
driver_run = refl

-- Frequency scaling that has one place for a driver: 0 is free, 1 another's, 2 this driver's.
abbrev one_place : Cpufreq
one_place = record {
  State = ℕ;
  register_driver = λ s. if s == 0 then (success, 2) else (ebusy, s);
  unregister_driver = λ s. if s == 2 then (success, 0) else (einval, s);
}

one_place-CpufreqLaws : CpufreqLaws one_place
one_place-CpufreqLaws = record {
  is_current = λ s. s == 2;
  registered = λ s h. ground arith;
  not_registered = λ s h. ground arith;
  unregistered = λ s h. ground arith;
  not_unregistered = λ s h. ground arith;
}

-- Another driver is registered.
abbrev fresh_cpu : Cpu ℕ
fresh_cpu = record { cpufreq = 1; messages = [] }

-- ===== src/Arch/Arm.antt =====
-- The architecture support of ARM, kernel/arch/arm/arch.c.
use ctrlxt_kernel.Base.{Bool, ℤ, is_neg, if◌then◌else◌}
use ctrlxt_kernel.Kernel.Errno.{success}
use ctrlxt_kernel.Kernel.Run.{Cmd, pure, ◌>>=◌, ◌>>◌}
use ctrlxt_kernel.Arch.{
  Cpufreq, Cpu, UhalArch, print, initializing, features_detected, driver_failed, detecting,
  no_cpu_features, no_memory, no_io_devices, setting_up, no_interface, no_error_correction, loading,
  unloading, cpufreq_register_driver, cpufreq_unregister_driver,
}

module _ {S : Type 0} where
  unfoldable pub detect_arm_features : Cmd (Cpu S) (Unit {0})
  detect_arm_features m = print no_cpu_features m

  unfoldable pub detect_arm_memory : Cmd (Cpu S) (Unit {0})
  detect_arm_memory m = print no_memory m

  unfoldable pub detect_arm_io_devices : Cmd (Cpu S) (Unit {0})
  detect_arm_io_devices m = print no_io_devices m

  unfoldable pub init_arm_quantum_classical_interface : Cmd (Cpu S) (Unit {0})
  init_arm_quantum_classical_interface m = print no_interface m

  unfoldable pub setup_arm_quantum_error_correction : Cmd (Cpu S) (Unit {0})
  setup_arm_quantum_error_correction m = print no_error_correction m

  unfoldable pub arm_detect_hardware : Cmd (Cpu S) (Unit {0})
  arm_detect_hardware m =
      (do print detecting; detect_arm_features; detect_arm_memory; detect_arm_io_devices) m

  unfoldable pub arm_setup_quantum : Cmd (Cpu S) (Unit {0})
  arm_setup_quantum m =
      (do
        print setting_up
        init_arm_quantum_classical_interface
        setup_arm_quantum_error_correction)
        m

module _ (c : Cpufreq) where
  open c use {State}

  unfoldable pub arm_arch_init : (features : Bool) → Cmd (Cpu State) ℤ
  arm_arch_init features m =
      (do
        print initializing
        if features then print features_detected else pure tt
        r ← cpufreq_register_driver c
        if is_neg r then print driver_failed else pure tt
        pure success)
        m

  abbrev pub arm_arch : UhalArch State
  arm_arch = record {
    arch_id = 0x41;
    init = arm_arch_init;
    detect_hardware = arm_detect_hardware;
    setup_quantum = arm_setup_quantum;
  }

  unfoldable pub arm_init : (features : Bool) → Cmd (Cpu State) ℤ
  arm_init features m = (do print loading; arm_arch_init features) m

  unfoldable pub arm_exit : Cmd (Cpu State) (Unit {0})
  arm_exit m = (do print unloading; cpufreq_unregister_driver c) m

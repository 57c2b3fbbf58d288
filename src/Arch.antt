-- ===== src/Arch.antt =====
-- What the three architectures, kernel/arch/x86/arch.c, kernel/arch/arm/arch.c and
-- kernel/arch/riscv/arch.c, share: `struct uhal_arch`, and the messages that the functions print,
-- newest first. Linux's frequency scaling is the parameter `Cpufreq`: a state of its own, and two
-- calls for the driver of the architecture. What the source relies on is `CpufreqLaws`: a call that
-- succeeds makes the driver the current one or takes it away, registering that fails changes
-- nothing, and unregistering a driver that is not the current one is refused with -EINVAL. What the
-- test of the CPU's features returns is an argument.
pub mod X86
pub mod Arm
pub mod Riscv
pub mod Loading
use ctrlxt_kernel.Base.{ℕ, ◌≡◌, Bool, true, false, List, ◌∷◌, ℤ, is_neg}
use ctrlxt_kernel.Kernel.Errno.{einval}
use ctrlxt_kernel.Kernel.Run.{ok, Cmd}

pub record Cpufreq : Type 1 where
  pub State : Type 0
  -- cpufreq_register_driver and cpufreq_unregister_driver
  pub register_driver : State → ℤ × State
  pub unregister_driver : State → ℤ × State

pub record CpufreqLaws (c : Cpufreq) : Type 0 where
  -- The driver of the architecture is the one that is registered.
  pub is_current : c.State → Bool
  pub registered :
      (s : c.State)
      → is_neg (c.register_driver s).0 ≡ false
      → is_current (c.register_driver s).1 ≡ true
  pub not_registered :
      (s : c.State) → is_neg (c.register_driver s).0 ≡ true → (c.register_driver s).1 ≡ s
  pub unregistered :
      (s : c.State) → is_current s ≡ true → is_current (c.unregister_driver s).1 ≡ false
  pub not_unregistered : (s : c.State) → is_current s ≡ false → c.unregister_driver s ≡ (einval, s)

pub data Message : Type 0 where
  initializing features_detected driver_failed : Message
  detecting no_cpu_features no_memory no_io_devices : Message
  setting_up no_interface no_error_correction : Message
  loading unloading : Message

pub record Cpu (S : Type 0) : Type 0 where
  pub cpufreq : S
  pub messages : List Message

module _ {S : Type 0} where
  abbrev pub print : Message → Cmd (Cpu S) (Unit {0})
  print x m = ok tt (record m { messages = x ∷ m.messages })

-- The two calls: of the first the answer is used, of the second it is dropped.
module _ (c : Cpufreq) where
  open c use {State, register_driver, unregister_driver}

  abbrev pub cpufreq_register_driver : Cmd (Cpu State) ℤ
  cpufreq_register_driver m =
      ok (register_driver m.cpufreq).0 (record m { cpufreq = (register_driver m.cpufreq).1 })

  abbrev pub cpufreq_unregister_driver : Cmd (Cpu State) (Unit {0})
  cpufreq_unregister_driver m = ok tt (record m { cpufreq = (unregister_driver m.cpufreq).1 })

-- The name is left out.
pub record UhalArch (S : Type 0) : Type 0 where
  pub arch_id : ℕ
  pub init : (features : Bool) → Cmd (Cpu S) ℤ
  pub detect_hardware : Cmd (Cpu S) (Unit {0})
  pub setup_quantum : Cmd (Cpu S) (Unit {0})

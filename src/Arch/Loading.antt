-- ===== src/Arch/Loading.antt =====
-- Loading and unloading the architecture support, on each of the three architectures.
use ctrlxt_kernel.Base.{◌≡◌, Bool, true, false, ◌∷◌, List, ℤ, is_neg}
use ctrlxt_kernel.Kernel.Errno.{einval}
use ctrlxt_kernel.Kernel.Run.{Cmd, Returns}
use ctrlxt_kernel.Arch.{
  Cpufreq, CpufreqLaws, Cpu, Message, loading, initializing, features_detected, driver_failed,
}
use ctrlxt_kernel.Arch.X86.{x86_init, x86_exit}
use ctrlxt_kernel.Arch.Arm.{arm_init, arm_exit}
use ctrlxt_kernel.Arch.Riscv.{riscv_init, riscv_exit}

pub data Port : Type 0 where
  x86 arm riscv : Port

-- What is printed up to the call of cpufreq_register_driver, newest first.
abbrev pub greeted : (features : Bool) → List Message → List Message
greeted true log = features_detected ∷ initializing ∷ loading ∷ log
greeted false log = initializing ∷ loading ∷ log

module _ (c : Cpufreq) where
  open c use {State, register_driver, unregister_driver}

  abbrev pub init_of : Port → (features : Bool) → Cmd (Cpu State) ℤ
  init_of x86 = x86_init c
  init_of arm = arm_init c
  init_of riscv = riscv_init c

  abbrev pub exit_of : Port → Cmd (Cpu State) (Unit {0})
  exit_of x86 = x86_exit c
  exit_of arm = arm_exit c
  exit_of riscv = riscv_exit c

  module _ (laws : CpufreqLaws c) where
    open laws use {is_current, registered, not_registered, unregistered, not_unregistered}

    -- Registering has succeeded: the driver is the current one until it is unloaded.
    pub record IsLoaded (p : Port) (features : Bool) (m n : Cpu State) : Type 0 where
      pub succeeded : is_neg (register_driver m.cpufreq).0 ≡ false
      pub current : is_current n.cpufreq ≡ true
      pub log : n.messages ≡ greeted features m.messages
      pub unloads : Returns (λ _ k. is_current k.cpufreq ≡ false) (exit_of p n)

    -- Registering has failed: the call that unloading makes is refused.
    pub record IsHollow (p : Port) (features : Bool) (m n : Cpu State) : Type 0 where
      pub refused : is_neg (register_driver m.cpufreq).0 ≡ true
      pub none_current : is_current n.cpufreq ≡ false
      pub log : n.messages ≡ driver_failed ∷ greeted features m.messages
      pub answer : (unregister_driver n.cpufreq).0 ≡ einval
      pub unloads : Returns (λ _ k. k.cpufreq ≡ m.cpufreq) (exit_of p n)

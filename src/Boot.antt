-- ===== src/Boot.antt =====
-- The start of the kernel, kernel/init/main.c. `struct ctrlxt_kernel` is the record
-- `CtrlxtKernel`; CONFIG_QUANTUM is the argument `config_quantum`. Messages are left out.
use ctrlxt_kernel.Base.{
  ℕ, ◌≡◌, refl, Bool, true, false, Option, List, [], ℤ, is_zero, if◌then◌else◌,
}
use ctrlxt_kernel.Kernel.Errno.{success, enodev}
use ctrlxt_kernel.Kernel.Run.{ok, Cmd, pure, ◌>>=◌, ◌>>◌, modify}
use ctrlxt_kernel.Qdev.{arch_init}

pub record PerformanceParams : Type 0 where
  pub cpu_max_multiplier : ℕ
  pub gpu_max_multiplier : ℕ
  pub quantum_max_multiplier : ℕ
  pub thermal_threshold : ℕ
  pub swap_default_size : ℕ

-- Devices and quantum devices stand in their lists by their addresses.
pub record CtrlxtKernel : Type 0 where
  pub arch : Option ℕ
  pub devices : List ℕ
  pub quantum_devices : List ℕ
  pub perf_params : PerformanceParams
  pub quantum_enabled : Bool

unfoldable pub uhal_init : Cmd CtrlxtKernel ℤ
uhal_init m = ok success (record m {
  devices = [];
  quantum_devices = [];
  perf_params = record {
    cpu_max_multiplier = 150;
    gpu_max_multiplier = 130;
    quantum_max_multiplier = 110;
    thermal_threshold = 90;
    swap_default_size = 8;
  };
})

-- The part of quantum_init under CONFIG_QUANTUM.
abbrev pub enable_if : ℤ → Cmd CtrlxtKernel (Unit {0})
enable_if ret = if is_zero ret then modify (λ m. record m { quantum_enabled = true }) else pure tt

unfoldable pub quantum_init : (config_quantum : Bool) → Cmd CtrlxtKernel ℤ
quantum_init config_quantum m =
    (do
      modify λ k. record k { quantum_enabled = false }
      if config_quantum then enable_if arch_init else pure tt
      pure success)
      m

unfoldable pub performance_init : Cmd CtrlxtKernel ℤ
performance_init m = ok success m

-- ctrlxt_kernel_init: the codes of the last two initialisations change messages only.
unfoldable pub kernel_init : (config_quantum : Bool) → Cmd CtrlxtKernel ℤ
kernel_init config_quantum m =
    (do
      ret ← uhal_init
      if is_zero ret
          then (do quantum_init config_quantum; performance_init; pure success)
          else pure enodev)
      m

-- ctrlxt_kernel_init returns 0 from every state, with quantum computing enabled exactly if
-- CONFIG_QUANTUM is set, both device lists empty, the default limits of performance, and the
-- pointer to the architecture as it was: no architecture is set.
pub kernel_init-boots :
    (config_quantum : Bool) (m : CtrlxtKernel)
    → kernel_init config_quantum m
      ≡ ok success (record {
        arch = m.arch;
        devices = [];
        quantum_devices = [];
        perf_params = record {
          cpu_max_multiplier = 150;
          gpu_max_multiplier = 130;
          quantum_max_multiplier = 110;
          thermal_threshold = 90;
          swap_default_size = 8;
        };
        quantum_enabled = config_quantum;
      })
unfolding kernel_init uhal_init quantum_init performance_init arch_init
kernel_init-boots true m = refl
kernel_init-boots false m = refl

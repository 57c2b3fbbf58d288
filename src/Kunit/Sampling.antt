-- ===== src/Kunit/Sampling.antt =====
-- A new context through the sampling that the tests do: quantum_perf_start_sampling and
-- quantum_perf_stop_sampling of kernel/performance/performance.c.
use ctrlxt_kernel.Base.{ℕ, ◌≡◌, refl, true, false}
use ctrlxt_kernel.Kernel.Errno.{success}
use ctrlxt_kernel.Kernel.Pointer.{addr}
use ctrlxt_kernel.Kernel.Run.{ok}
use ctrlxt_kernel.Contexts.Defs.{Context, Contexts, fresh}
use ctrlxt_kernel.Contexts.Holding.{holding, load-holding, update_body-holding}
use ctrlxt_kernel.Performance.{Sampler, idle_sampler, start_sampling, stop_sampling}

abbrev pub started : (now : ℕ) → Sampler → Sampler
started now b = record b { sampling_active = true; sampling_start = now }

abbrev pub stopped : (later : ℕ) → Sampler → Sampler
stopped later b = record b { sampling_active = false; sampling_end = later }

-- The context before, while and after it samples.
abbrev pub idle_context : Context Sampler
idle_context = fresh idle_sampler

abbrev pub sampling : (now : ℕ) → Context Sampler
sampling now = fresh (started now idle_sampler)

abbrev pub sampled : (now later : ℕ) → Context Sampler
sampled now later = fresh (stopped later (started now idle_sampler))

module _ (now later a : ℕ) (m : Contexts Sampler) where
  pub start_sampling-holding :
      start_sampling now (addr a) (holding a m idle_context)
      ≡ ok success (holding a m (sampling now))
  unfolding start_sampling
  start_sampling-holding =
      rw (load-holding a m idle_context, update_body-holding a m (started now) idle_context) refl

  pub stop_sampling-holding :
      stop_sampling later (addr a) (holding a m (sampling now))
      ≡ ok success (holding a m (sampled now later))
  unfolding stop_sampling
  stop_sampling-holding =
      rw (load-holding a m (sampling now), update_body-holding a m (stopped later) (sampling now))
        refl

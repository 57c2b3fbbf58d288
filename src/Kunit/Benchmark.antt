-- ===== src/Kunit/Benchmark.antt =====
-- The benchmarks of kernel/tests/test_perf_benchmark.c. What the outside answers in round `i` of a
-- loop is `rounds i`: the two readings of the clock around the operation, and what the operation
-- itself is told. ktime_divns and the comparison with its result are the kernel's; a time is a
-- 64-bit pattern. msleep changes nothing.
pub mod Rounds
pub mod Passes
use ctrlxt_kernel.Base.{ℕ, zero, suc, ◌+◌, ◌%◌, ◌^◌, Bool, Option, List, [], ◌∷◌}
use ctrlxt_kernel.Kernel.Pointer.{Pointer, null, addr, err_ptr}
use ctrlxt_kernel.Kernel.Run.{ok, Cmd, pure, ◌>>=◌, ◌>>◌}
use ctrlxt_kernel.Contexts.Defs.{Contexts}
use ctrlxt_kernel.Performance.{
  Sampler, Perf, metric_cpu, create_context, put_context, start_sampling, stop_sampling,
  create_metric, update_metric, set_threshold, ktime_sub,
}
use ctrlxt_kernel.Kunit.Performance.{threshold_warning, kfree_metric}

abbrev pub benchmark_iterations : ℕ
benchmark_iterations = 1000

pub record Round (A : Type 0) : Type 0 where
  pub start : ℕ
  pub end : ℕ
  pub told : A

-- `if (p)`
abbrev when_set : {S : Type 0} → Pointer → Cmd S (Unit {0}) → Cmd S (Unit {0})
when_set null c = pure tt
when_set (addr a) c = c
when_set (err_ptr e) c = c

-- The clock and kzalloc, as a sampling benchmark sees them.
pub record SamplingTold : Type 0 where
  pub kzalloc : Option ℕ
  pub started_at : ℕ
  pub stopped_at : ℕ

-- And as a metric benchmark sees them.
pub record MetricTold : Type 0 where
  pub kzalloc : Option ℕ
  pub made_at : ℕ
  pub now : ℕ
  pub later : ℕ

unfoldable pub benchmark_context_ops : Option ℕ → Cmd (Contexts Sampler) (Unit {0})
benchmark_context_ops kzalloc m =
    (do ctx ← create_context kzalloc; when_set ctx (put_context ctx)) m

unfoldable pub benchmark_sampling_ops : SamplingTold → Cmd (Contexts Sampler) (Unit {0})
benchmark_sampling_ops t m =
    (do
      ctx ← create_context t.kzalloc
      when_set ctx
          (do start_sampling t.started_at ctx; stop_sampling t.stopped_at ctx; put_context ctx))
      m

-- `width` is that of the counters.
unfoldable pub benchmark_metric_ops : (width : ℕ) → MetricTold → Cmd Perf (Unit {0})
benchmark_metric_ops width t m =
    (do
      metric ← create_metric t.kzalloc t.made_at metric_cpu
      when_set metric (do
        update_metric width t.now t.later metric 75
        set_threshold metric threshold_warning
        kfree_metric metric))
      m

module _ {S A : Type 0} (operation : A → Cmd S (Unit {0})) where
  unfoldable pub measure_operation_time : Round A → Cmd S ℕ
  measure_operation_time r m = (do operation r.told; pure (ktime_sub r.end r.start)) m

  -- The loop of a benchmark: the rounds from `i` on, `n` of them.
  unfoldable pub total_time : (rounds : ℕ → Round A) → (n i time : ℕ) → Cmd S ℕ
  total_time rounds zero i time m = ok time m
  total_time rounds (suc n) i time m =
      (do t ← measure_operation_time (rounds i); total_time rounds n (i + 1) ((time + t) % 2 ^ 64))
        m

  module _ (ktime_divns : ℕ → ℕ → ℕ) (less : ℕ → ℕ → Bool) where
    -- A benchmark, which expects an average below the bound.
    unfoldable pub benchmark : (bound : ℕ) → (rounds : ℕ → Round A) → Cmd S (List Bool)
    benchmark bound rounds m =
        (do
          t ← total_time rounds benchmark_iterations 0 0
          pure (less (ktime_divns t benchmark_iterations) bound ∷ []))
          m

module _ (ktime_divns : ℕ → ℕ → ℕ) (less : ℕ → ℕ → Bool) where
  abbrev pub test_context_creation_benchmark :
      (ℕ → Round (Option ℕ)) → Cmd (Contexts Sampler) (List Bool)
  test_context_creation_benchmark = benchmark benchmark_context_ops ktime_divns less 1_000_000

  abbrev pub test_metric_operations_benchmark :
      (width : ℕ) → (ℕ → Round MetricTold) → Cmd Perf (List Bool)
  test_metric_operations_benchmark width =
      benchmark (benchmark_metric_ops width) ktime_divns less 500_000

  abbrev pub test_sampling_operations_benchmark :
      (ℕ → Round SamplingTold) → Cmd (Contexts Sampler) (List Bool)
  test_sampling_operations_benchmark = benchmark benchmark_sampling_ops ktime_divns less 2_000_000

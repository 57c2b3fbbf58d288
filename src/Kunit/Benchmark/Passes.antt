-- ===== src/Kunit/Benchmark/Passes.antt =====
-- The benchmarks run to their end, and what they leave.
use native.Mathlib.Nat.{mod-add-mod, mod-eq_of_lt}
use ctrlxt_kernel.Base.{
  ℕ, ◌+◌, ◌<◌, ◌%◌, ◌/◌, ◌^◌, ◌≡◌, refl, ap, sym, arith, Bool, false, Option, none, some, List, [],
  ◌∷◌,
}
use ctrlxt_kernel.Kernel.Run.{ok, Returns, returns, Returns-mono, Heap, write-write, write_self}
use ctrlxt_kernel.Contexts.Defs.{Contexts, create, fresh}
use ctrlxt_kernel.Contexts.Holding.{put-holding}
use ctrlxt_kernel.Performance.{
  Sampler, Perf, idle_sampler, create_context, create_metric, update_metric, set_threshold, counted,
  increment,
}
use ctrlxt_kernel.Kunit.Performance.{load_metric-write}
use ctrlxt_kernel.Kunit.Benchmark.{
  Round, SamplingTold, MetricTold, benchmark_iterations, benchmark_context_ops,
  benchmark_sampling_ops, benchmark_metric_ops, test_context_creation_benchmark,
  test_sampling_operations_benchmark, test_metric_operations_benchmark,
}
use ctrlxt_kernel.Kunit.Sampling.{sampled, start_sampling-holding, stop_sampling-holding}
use ctrlxt_kernel.Kunit.Benchmark.Rounds.{elapsed, IsTimely, Divides, benchmark-elapsed}

-- kzalloc returns an address that holds nothing.
abbrev pub Unused : {A : Type 0} → Heap A → Option ℕ → Type 0
Unused h none = ⊥
Unused h (some a) = h a ≡ none

benchmark_context_ops-same :
    (k : Option ℕ) (m : Contexts Sampler)
    → m.locked ≡ false
    → Unused m.heap k
    → benchmark_context_ops k m ≡ ok tt m
unfolding benchmark_context_ops create_context create
benchmark_context_ops-same none m u h = absurd h
benchmark_context_ops-same (some a) m u h =
    rw (put-holding a m (fresh idle_sampler) u h refl refl) refl

benchmark_sampling_ops-same :
    (k : Option ℕ) (now later : ℕ) (m : Contexts Sampler)
    → m.locked ≡ false
    → Unused m.heap k
    → benchmark_sampling_ops (record { kzalloc = k; started_at = now; stopped_at = later }) m
      ≡ ok tt m
unfolding benchmark_sampling_ops create_context create
benchmark_sampling_ops-same none now later m u h = absurd h
benchmark_sampling_ops-same (some a) now later m u h =
    rw
      (
        start_sampling-holding now later a m,
        stop_sampling-holding now later a m,
        put-holding a m (sampled now later) u h refl refl,
      )
      refl

-- A metric benchmark leaves the metrics, and counts one report that is not above its threshold.
benchmark_metric_ops-counted :
    (width : ℕ) (k : Option ℕ) (made now later : ℕ) (m : Perf)
    → m.locked ≡ false
    → Unused m.metrics k
    → benchmark_metric_ops width
        (record { kzalloc = k; made_at = made; now = now; later = later })
        m
      ≡ ok tt (record m { stats = counted width later 75 80 m.stats })
unfolding benchmark_metric_ops create_metric update_metric set_threshold
benchmark_metric_ops-counted width none made now later m u h = absurd h
benchmark_metric_ops-counted width (some a) made now later m u h =
    rw (load_metric-write, u, load_metric-write, load_metric-write)
      (rw write-write (rw write-write (rw (write-write, write_self m.metrics a none h) refl)))

-- The average of a benchmark's times, against its bound.
abbrev pub Expects : {A : Type 0} → (ℕ → ℕ → Bool) → ℕ → (ℕ → Round A) → List Bool → Type 0
Expects less bound rounds es =
    es ≡ less (elapsed rounds benchmark_iterations 0 / benchmark_iterations) bound ∷ []

module _ (ktime_divns : ℕ → ℕ → ℕ) (less : ℕ → ℕ → Bool) (divides : Divides ktime_divns) where
  -- Where ktime_divns divides times of 63 bits, the lock is free, kzalloc returns unused addresses,
  -- the clock does not run backwards and the times fit 63 bits, the context benchmark ends without a fault, expects that the average
  -- time is below its bound, and leaves the contexts as they were.
  pub test_context_creation_benchmark-same :
      (rounds : ℕ → Round (Option ℕ)) (m : Contexts Sampler)
      → m.locked ≡ false
      → ((i : ℕ) → Unused m.heap (rounds i).told)
      → IsTimely rounds
      → elapsed rounds benchmark_iterations 0 < 2 ^ 63
      → Returns
          (λ es n. Expects less 1_000_000 rounds es × (n ≡ m))
          (test_context_creation_benchmark ktime_divns less rounds m)
  test_context_creation_benchmark-same rounds m u unused timely fits =
      benchmark-elapsed benchmark_context_ops rounds (λ _ n. n ≡ m)
        (λ i n e. rw (e, benchmark_context_ops-same (rounds i).told m u (unused i)) (returns refl))
        timely ktime_divns less 1_000_000 m divides fits refl

  -- Where ktime_divns divides times of 63 bits, the lock is free, kzalloc returns unused addresses,
  -- the clock does not run backwards and the times fit 63 bits, the sampling benchmark ends without a fault, expects that the average
  -- time is below its bound, and leaves the contexts as they were.
  pub test_sampling_operations_benchmark-same :
      (rounds : ℕ → Round SamplingTold) (m : Contexts Sampler)
      → m.locked ≡ false
      → ((i : ℕ) → Unused m.heap (rounds i).told.kzalloc)
      → IsTimely rounds
      → elapsed rounds benchmark_iterations 0 < 2 ^ 63
      → Returns
          (λ es n. Expects less 2_000_000 rounds es × (n ≡ m))
          (test_sampling_operations_benchmark ktime_divns less rounds m)
  test_sampling_operations_benchmark-same rounds m u unused timely fits =
      benchmark-elapsed benchmark_sampling_ops rounds (λ _ n. n ≡ m)
        (λ i n e.
          rw
            (
              e,
              benchmark_sampling_ops-same (rounds i).told.kzalloc (rounds i).told.started_at
                  (rounds i).told.stopped_at m u (unused i),
            )
            (returns refl))
        timely ktime_divns less 2_000_000 m divides fits refl

  -- What the first `i` rounds of the metric benchmark leave.
  abbrev Counts : (width : ℕ) → Perf → ℕ → Perf → Type 0
  Counts width m i n =
      (n.metrics ≡ m.metrics)
      × (n.locked ≡ false)
      × (n.stats.total_metrics ≡ (m.stats.total_metrics + i) % 2 ^ width)
      × (n.stats.threshold_exceeded ≡ m.stats.threshold_exceeded)

  benchmark_metric_ops-Counts :
      (width : ℕ) (m : Perf) (i : ℕ) (t : MetricTold) (n : Perf)
      → Unused m.metrics t.kzalloc
      → Counts width m i n
      → Returns (λ _. Counts width m (i + 1)) (benchmark_metric_ops width t n)
  benchmark_metric_ops-Counts width m i t n unused (same, free, total, exceeded) =
      let next : increment width n.stats.total_metrics
          ≡ (m.stats.total_metrics + (i + 1)) % 2 ^ width =
        rw (total, mod-add-mod (m.stats.total_metrics + i) (2 ^ width) 1)
          (ap (λ k. k % 2 ^ width) (omega arith)) in
      rw
        (benchmark_metric_ops-counted width t.kzalloc t.made_at t.now t.later n free
          (rw same unused))
        (returns (same, free, next, exceeded))

  -- Where ktime_divns divides times of 63 bits, the lock is free, kzalloc returns unused addresses,
  -- the clock does not run backwards, the times fit 63 bits and the counter its width, the metric
  -- benchmark ends without a fault, expects
  -- that the average time is below its bound, leaves the metrics as they were, and has counted 1000
  -- reports, none of them above a threshold.
  pub test_metric_operations_benchmark-counts :
      (width : ℕ) (rounds : ℕ → Round MetricTold) (m : Perf)
      → m.locked ≡ false
      → m.stats.total_metrics < 2 ^ width
      → ((i : ℕ) → Unused m.metrics (rounds i).told.kzalloc)
      → IsTimely rounds
      → elapsed rounds benchmark_iterations 0 < 2 ^ 63
      → Returns
          (λ es n.
            Expects less 500_000 rounds es
            × (n.metrics ≡ m.metrics)
            × (n.stats.total_metrics ≡ (m.stats.total_metrics + 1000) % 2 ^ width)
            × (n.stats.threshold_exceeded ≡ m.stats.threshold_exceeded))
          (test_metric_operations_benchmark ktime_divns less width rounds m)
  test_metric_operations_benchmark-counts width rounds m u low unused timely fits =
      let none_yet : m.stats.total_metrics + 0 ≡ m.stats.total_metrics = omega arith in
      Returns-mono
        (benchmark-elapsed (benchmark_metric_ops width) rounds (Counts width m)
          (λ i n v. benchmark_metric_ops-Counts width m i (rounds i).told n (unused i) v) timely
          ktime_divns less 500_000 m divides fits
          (refl, u, rw none_yet (sym (mod-eq_of_lt low)), refl))
        λ es n (e, (same, _, total, exceeded)). (e, same, total, exceeded)

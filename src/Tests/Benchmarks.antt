-- ===== src/Tests/Benchmarks.antt =====
-- A run of a benchmark: kernel/tests/test_perf_benchmark.c.
use ctrlxt_kernel.Base.{
  List, [], ◌∷◌, Distinct, true, ℕ, ◌+◌, ◌/◌, ◌%◌, ◌^◌, ◌≡◌, refl, false, none, some, arith, ltb,
}
use ctrlxt_kernel.Kernel.Run.{Returns}
use ctrlxt_kernel.Kernel.Pointer.{null}
use ctrlxt_kernel.Contexts.Defs.{Contexts}
use ctrlxt_kernel.Performance.{Sampler, Perf, zero_stats}
use ctrlxt_kernel.Kunit.{all_true}
use ctrlxt_kernel.Kunit.Concurrent.{Told, test_concurrent_operations}
use ctrlxt_kernel.Kunit.Concurrent.Metrics.{Gives, resting}
use ctrlxt_kernel.Kunit.Concurrent.Passes.{test_concurrent_operations-counts}
use ctrlxt_kernel.Kunit.Benchmark.{
  Round, MetricTold, benchmark_iterations, test_metric_operations_benchmark,
}
use ctrlxt_kernel.Kunit.Benchmark.Rounds.{elapsed}
use ctrlxt_kernel.Kunit.Benchmark.Passes.{Expects, test_metric_operations_benchmark-counts}

-- Every round takes 2 ns.
abbrev rounds : ℕ → Round MetricTold
rounds i = record {
  start = 0;
  end = 2;
  told = record { kzalloc = some 5; made_at = i; now = i + 1; later = i + 1 };
}

abbrev monitor : Perf
monitor = record { metrics = λ _. none; stats = zero_stats; locked = false }

rounds-elapsed : elapsed rounds benchmark_iterations 0 ≡ 2000
unfolding elapsed
rounds-elapsed = refl

test_metric_operations_benchmark-counts_example :
    Returns
      (λ es n.
        Expects ltb 500_000 rounds es
        × (n.metrics ≡ monitor.metrics)
        × (n.stats.total_metrics ≡ 1000 % 2 ^ 64)
        × (n.stats.threshold_exceeded ≡ 0))
      (test_metric_operations_benchmark (λ t n. t / n) ltb 64 rounds monitor)
test_metric_operations_benchmark-counts_example =
    test_metric_operations_benchmark-counts (λ t n. t / n) ltb (λ t n h. refl) 64 rounds monitor
      refl (omega arith) (λ i. refl) (λ i. (omega arith, omega arith))
      (omega (arith, rounds-elapsed))

abbrev told : ℕ → Told
told a = record { kzalloc = some a; made_at = 1; now = 2; later = 3 }

abbrev ten : List Told
ten = told 1 ∷ told 2 ∷ told 3 ∷ told 4 ∷ told 5 ∷ told 6 ∷ told 7 ∷ told 8 ∷ told 9 ∷ told 10 ∷ []

abbrev ten_places : List ℕ
ten_places = 1 ∷ 2 ∷ 3 ∷ 4 ∷ 5 ∷ 6 ∷ 7 ∷ 8 ∷ 9 ∷ 10 ∷ []

abbrev no_contexts : Contexts Sampler
no_contexts = record { heap = λ _. none; global_context = null; locked = false; freed_data = [] }

ten-Gives : Gives ten ten_places
ten-Gives = (refl, (refl, (refl, (refl, (refl, (refl, (refl, (refl, (refl, (refl, tt))))))))))

ten_places-Distinct : Distinct ten_places
ten_places-Distinct =
    (refl, (refl, (refl, (refl, (refl, (refl, (refl, (refl, (refl, (refl, tt))))))))))

test_concurrent_operations-counts_example :
    Returns
      (λ es n.
        (all_true es ≡ true)
        × (n.contexts ≡ no_contexts)
        × (n.perf.metrics ≡ (λ _. none))
        × (n.perf.stats.total_metrics ≡ 10 % 2 ^ 64)
        × (n.perf.stats.threshold_exceeded ≡ 4 % 2 ^ 64))
      (test_concurrent_operations 64 7 9
        (some 20)
        ten
        (record { contexts = no_contexts; perf = resting (λ _. none) zero_stats }))
test_concurrent_operations-counts_example =
    test_concurrent_operations-counts 64 7 9 20 ten ten_places no_contexts (λ _. none) zero_stats
      refl refl refl ten-Gives ten_places-Distinct (λ b h. refl) (omega arith) (omega arith)

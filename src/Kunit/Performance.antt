-- ===== src/Kunit/Performance.antt =====
-- The tests of the performance monitor in kernel/tests/test_security_perf.c.
use ctrlxt_kernel.Base.{
  ℕ, ◌≡◌, refl, Bool, true, false, not, Option, none, some, List, [], ◌∷◌, is_zero, ◌==◌,
}
use ctrlxt_kernel.Kernel.Pointer.{Pointer, null, addr, err_ptr}
use ctrlxt_kernel.Kernel.Run.{
  fault, modify, ok, Cmd, pure, ◌>>=◌, ◌>>◌, Returns, returns, Heap, write, write-read,
}
use ctrlxt_kernel.Contexts.Defs.{Contexts, load, create}
use ctrlxt_kernel.Contexts.Holding.{load-holding, put-holding}
use ctrlxt_kernel.Performance.{
  Sampler, Metric, Perf, Stats, metric_cpu, config_sampling_rate, create_context, start_sampling,
  stop_sampling, put_context, create_metric, update_metric, set_threshold, get_metric, load_metric,
  counted,
}
use ctrlxt_kernel.Kunit.{all_true, asserting}
use ctrlxt_kernel.Kunit.Sampling.{
  idle_context, sampling, sampled, start_sampling-holding, stop_sampling-holding,
}

abbrev pub threshold_warning : ℕ
threshold_warning = 90

-- test_perf_context behind KUNIT_ASSERT_NOT_ERR_OR_NULL; `now` and `later` are what ktime_get
-- returns.
abbrev pub context_expectations : (now later : ℕ) → Pointer → Cmd (Contexts Sampler) (List Bool)
context_expectations now later ctx = do
  c0 ← load ctx
  ret1 ← start_sampling now ctx
  c1 ← load ctx
  ret2 ← stop_sampling later ctx
  c2 ← load ctx
  put_context ctx
  pure (
      (c0.body.sampling_rate == config_sampling_rate)
      ∷ is_zero ret1
      ∷ c1.body.sampling_active
      ∷ is_zero ret2
      ∷ not c2.body.sampling_active
      ∷ [])

unfoldable pub test_perf_context :
    (now later : ℕ) → (kzalloc : Option ℕ) → Cmd (Contexts Sampler) (List Bool)
test_perf_context now later kzalloc m =
    (do ctx ← create_context kzalloc; asserting (context_expectations now later) ctx) m

-- Where kzalloc returns an unused address and the lock is free, every expectation of
-- test_perf_context holds, whatever the clock shows, and the test leaves the contexts as they were.
pub test_perf_context-passes :
    (now later a : ℕ) (m : Contexts Sampler)
    → m.locked ≡ false
    → m.heap a ≡ none
    → Returns (λ es n. (all_true es ≡ true) × (n ≡ m)) (test_perf_context now later (some a) m)
unfolding test_perf_context create_context create
test_perf_context-passes now later a m u e =
    rw
      (
        load-holding a m idle_context,
        start_sampling-holding now later a m,
        load-holding a m (sampling now),
        stop_sampling-holding now later a m,
        load-holding a m (sampled now later),
        put-holding a m (sampled now later) u e refl refl,
      )
      (returns (refl, refl))

abbrev pub kfree_metric : Pointer → Cmd Perf (Unit {0})
kfree_metric null m = ok tt m
kfree_metric (err_ptr e) m = fault
kfree_metric (addr a) m =
    (do load_metric (addr a); modify λ n. record n { metrics = write n.metrics a none }) m

-- test_perf_metrics behind KUNIT_ASSERT_NOT_ERR_OR_NULL. The first reading of the clock is
-- create_metric's, the others are update_metric's; `width` is that of the counters.
abbrev pub metric_expectations : (width now later : ℕ) → Pointer → Cmd Perf (List Bool)
metric_expectations width now later metric = do
  x0 ← load_metric metric
  ret1 ← update_metric width now later metric 75
  x1 ← load_metric metric
  ret2 ← set_threshold metric threshold_warning
  x2 ← load_metric metric
  got ← get_metric true metric
  kfree_metric metric
  pure (
      (x0.metric_type == metric_cpu)
      ∷ is_zero ret1
      ∷ (x1.value == 75)
      ∷ is_zero ret2
      ∷ (x2.threshold == threshold_warning)
      ∷ is_zero (got.0)
      ∷ (got.1 == 75)
      ∷ [])

unfoldable pub test_perf_metrics :
    (width made_at now later : ℕ) → (kzalloc : Option ℕ) → Cmd Perf (List Bool)
test_perf_metrics width made_at now later kzalloc m =
    (do
      metric ← create_metric kzalloc made_at metric_cpu
      asserting (metric_expectations width now later) metric)
      m

pub load_metric-write :
    (h : Heap Metric) (a : ℕ) (x : Metric) (s : Stats) (b : Bool)
    → load_metric (addr a) (record { metrics = write h a (some x); stats = s; locked = b })
      ≡ ok x (record { metrics = write h a (some x); stats = s; locked = b })
load_metric-write h a x s b = rw (load_metric, write-read) refl

-- Where the lock is free, every expectation of test_perf_metrics holds, whatever the clock shows,
-- and one metric more is counted, which is not above its threshold.
pub test_perf_metrics-passes :
    (width made_at now later a : ℕ) (m : Perf)
    → m.locked ≡ false
    → Returns
        (λ es n. (all_true es ≡ true) × (n.stats ≡ counted width later 75 80 m.stats))
        (test_perf_metrics width made_at now later (some a) m)
unfolding test_perf_metrics create_metric update_metric set_threshold get_metric
test_perf_metrics-passes width made_at now later a m u =
    rw
      (
        load_metric-write, load_metric-write, u, load_metric-write, load_metric-write,
        load_metric-write, load_metric-write, load_metric-write,
      )
      (returns (refl, refl))

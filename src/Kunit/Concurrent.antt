-- ===== src/Kunit/Concurrent.antt =====
-- test_concurrent_operations of kernel/tests/test_perf_benchmark.c, over the contexts and the metrics
-- of the performance monitor. The test makes, updates and frees its ten metrics in three loops;
-- what kzalloc and the clock return in each round is an argument.
pub mod Metrics
pub mod Passes
use ctrlxt_kernel.Base.{
  ℕ, ◌+◌, Bool, true, false, Option, none, some, List, [], ◌∷◌, ◌++◌, is_zero, length,
}
use ctrlxt_kernel.Kernel.Pointer.{Pointer, null, addr, err_ptr}
use ctrlxt_kernel.Kernel.Run.{Run, ok, fault, Cmd, pure, ◌>>=◌, ◌>>◌}
use ctrlxt_kernel.Contexts.Defs.{Contexts}
use ctrlxt_kernel.Performance.{
  Sampler, Perf, metric_cpu, create_context, put_context, start_sampling, stop_sampling,
  create_metric, update_metric,
}
use ctrlxt_kernel.Kunit.{asserting}
use ctrlxt_kernel.Kunit.Performance.{kfree_metric}

pub record Monitor : Type 0 where
  pub contexts : Contexts Sampler
  pub perf : Perf

abbrev pub on_contexts : {A : Type 0} → Cmd (Contexts Sampler) A → Cmd Monitor A
on_contexts c m = elim (c m.contexts) [ ok a n ↦ ok a (record m { contexts = n }) | fault ↦ fault ]

abbrev pub on_perf : {A : Type 0} → Cmd Perf A → Cmd Monitor A
on_perf c m = elim (c m.perf) [ ok a n ↦ ok a (record m { perf = n }) | fault ↦ fault ]

-- What a round is told: kzalloc and the clock of the creation, and the clock of the update.
pub record Told : Type 0 where
  pub kzalloc : Option ℕ
  pub made_at : ℕ
  pub now : ℕ
  pub later : ℕ

-- The first loop: the metrics, or nothing where KUNIT_ASSERT_NOT_ERR_OR_NULL ends the test.
unfoldable pub create_metrics : List Told → Cmd Perf (Option (List Pointer))
create_metrics [] m = ok (some []) m
create_metrics (t ∷ ts) m =
    (do
      metric ← create_metric t.kzalloc t.made_at metric_cpu
      elim metric [
        | null ↦ pure none
        | err_ptr e ↦ pure none
        | addr a ↦ do
          rest ← create_metrics ts
          pure (elim rest [ none ↦ none | some others ↦ some (addr a ∷ others) ])
      ])
      m

-- The third loop.
unfoldable pub free_metrics : List Pointer → Cmd Perf (Unit {0})
free_metrics [] m = ok tt m
free_metrics (metric ∷ metrics) m = (kfree_metric metric >> free_metrics metrics) m

module _ (width : ℕ) where
  -- The second loop, from round `i` on: whether each call returned 0.
  unfoldable pub update_metrics : (i : ℕ) → List Told → List Pointer → Cmd Perf (List Bool)
  update_metrics i [] metrics m = ok [] m
  update_metrics i (t ∷ ts) [] m = ok [] m
  update_metrics i (t ∷ ts) (metric ∷ metrics) m =
      (do
        ret ← update_metric width t.now t.later metric (75 + i)
        rest ← update_metrics (i + 1) ts metrics
        pure (is_zero ret ∷ rest))
        m

  -- The test behind its first loop.
  abbrev pub concurrent_expectations :
      (now later : ℕ) → List Told → Pointer → Option (List Pointer) → Cmd Monitor (List Bool)
  concurrent_expectations now later ts ctx none = pure (false ∷ [])
  concurrent_expectations now later ts ctx (some metrics) = do
    ret1 ← on_contexts (start_sampling now ctx)
    updated ← on_perf (update_metrics 0 ts metrics)
    ret2 ← on_contexts (stop_sampling later ctx)
    on_perf (free_metrics metrics)
    on_contexts (put_context ctx)
    pure (is_zero ret1 ∷ updated ++ is_zero ret2 ∷ [])

  unfoldable pub test_concurrent_operations :
      (now later : ℕ) → (kzalloc : Option ℕ) → List Told → Cmd Monitor (List Bool)
  test_concurrent_operations now later kzalloc ts m =
      (do
        ctx ← on_contexts (create_context kzalloc)
        asserting
            (λ c. do
              metrics ← on_perf (create_metrics ts)
              concurrent_expectations now later ts c metrics)
            ctx)
        m

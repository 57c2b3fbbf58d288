-- ===== src/Kunit/Concurrent/Passes.antt =====
-- What test_concurrent_operations finds and leaves.
use native.Mathlib.Nat.{mod-add-mod, mod-eq_of_lt}
use ctrlxt_kernel.Base.{
  ℕ, zero, suc, ◌+◌, ◌%◌, ◌^◌, ◌<◌, ◌≡◌, ◌∙◌, refl, ap, sym, Bool, true, false, none, some, List,
  [], ◌∷◌, ◌++◌, arith, has, Distinct, length, ltb, if◌then◌else◌,
}
use ctrlxt_kernel.Kernel.Pointer.{addr}
use ctrlxt_kernel.Kernel.Run.{ok, Returns, returns, Heap}
use ctrlxt_kernel.Contexts.Defs.{Contexts, create}
use ctrlxt_kernel.Contexts.Holding.{put-holding}
use ctrlxt_kernel.Performance.{Sampler, Metric, Stats, create_context, increment, threshold_normal}
use ctrlxt_kernel.Kunit.{all_true}
use ctrlxt_kernel.Kunit.Sampling.{sampled, start_sampling-holding, stop_sampling-holding}
use ctrlxt_kernel.Kunit.Concurrent.{
  Told, free_metrics, on_contexts, on_perf, test_concurrent_operations,
}
use ctrlxt_kernel.Kunit.Concurrent.Metrics.{
  addresses, pointers, put_all, resting, made, Gives, create_metrics-made, Fitting, updated, trues,
  tally, update_metrics-updated, free_metrics-freed,
}

addresses-made :
    (ts : List Told) (places : List ℕ) → Gives ts places → addresses (made ts places) ≡ places
addresses-made [] [] g = refl
addresses-made [] (a ∷ places) g = absurd g
addresses-made (t ∷ ts) [] g = absurd g
addresses-made (t ∷ ts) (a ∷ places) (e, g) = ap (◌∷◌ a) (addresses-made ts places g)

made-Fitting : (ts : List Told) (places : List ℕ) → Gives ts places → Fitting ts (made ts places)
made-Fitting [] [] g = tt
made-Fitting [] (a ∷ places) g = absurd g
made-Fitting (t ∷ ts) [] g = absurd g
made-Fitting (t ∷ ts) (a ∷ places) (e, g) = (refl, made-Fitting ts places g)

addresses-updated :
    (i : ℕ) (ts : List Told) (ps : List (ℕ × Metric))
    → Fitting ts ps
    → addresses (updated i ts ps) ≡ addresses ps
addresses-updated i [] ps f = refl
addresses-updated i (t ∷ ts) [] f = refl
addresses-updated i (t ∷ ts) ((a, x) ∷ ps) (e, f) = ap (◌∷◌ a) (addresses-updated (i + 1) ts ps f)

pointers-updated :
    (i : ℕ) (ts : List Told) (ps : List (ℕ × Metric))
    → Fitting ts ps
    → pointers (updated i ts ps) ≡ pointers ps
pointers-updated i [] ps f = refl
pointers-updated i (t ∷ ts) [] f = refl
pointers-updated i (t ∷ ts) ((a, x) ∷ ps) (e, f) =
    ap (◌∷◌ (addr a)) (pointers-updated (i + 1) ts ps f)

all_true-trues : (ts : List Told) → all_true (trues ts ++ true ∷ []) ≡ true
all_true-trues [] = refl
all_true-trues (t ∷ ts) = all_true-trues ts

-- How many of `n` values from 75 + `i` on are above the first threshold.
abbrev above : (i n : ℕ) → ℕ
above i zero = 0
above i (suc n) = (if ltb threshold_normal (75 + i) then 1 else 0) + above (i + 1) n

module _ (width : ℕ) where
  total-tally :
      (i k : ℕ) (ts : List Told) (s : Stats)
      → s.total_metrics ≡ k % 2 ^ width
      → (tally width i ts s).total_metrics ≡ (k + length ts) % 2 ^ width
  total-tally i k [] s e = let z : k + 0 ≡ k = omega arith in rw z e
  total-tally i k (t ∷ ts) s e =
      total-tally (i + 1) (k + 1) ts _ (rw (e, mod-add-mod k (2 ^ width) 1) refl)
      ∙ ap (λ n. n % 2 ^ width) (omega arith)

  bumped :
      (b : Bool) (e k : ℕ)
      → e ≡ k % 2 ^ width
      → (if b then increment width e else e) ≡ (k + (if b then 1 else 0)) % 2 ^ width
  bumped true e k f = rw (f, mod-add-mod k (2 ^ width) 1) refl
  bumped false e k f = let z : k + 0 ≡ k = omega arith in rw z f

  exceeded-tally :
      (i k : ℕ) (ts : List Told) (s : Stats)
      → s.threshold_exceeded ≡ k % 2 ^ width
      → (tally width i ts s).threshold_exceeded ≡ (k + above i (length ts)) % 2 ^ width
  exceeded-tally i k [] s e = let z : k + 0 ≡ k = omega arith in rw z e
  exceeded-tally i k (t ∷ ts) s e =
      exceeded-tally (i + 1) _ ts _
        (bumped (ltb threshold_normal (75 + i)) s.threshold_exceeded k e)
      ∙ ap (λ n. n % 2 ^ width) (omega arith)

  -- With free locks, ten rounds, both counters within their width, and kzalloc returning unused
  -- addresses, for each metric another one, every expectation of test_concurrent_operations holds,
  -- whatever the clock shows; the test leaves the contexts and the metrics as they were, and has
  -- counted ten reports, four of them above the threshold, as far as the width goes.
  pub test_concurrent_operations-counts :
      (now later a : ℕ) (ts : List Told) (places : List ℕ) (c : Contexts Sampler) (h : Heap Metric)
      (s : Stats)
      → c.locked ≡ false
      → c.heap a ≡ none
      → length ts ≡ 10
      → Gives ts places
      → Distinct places
      → ((b : ℕ) → has b places ≡ true → h b ≡ none)
      → s.total_metrics < 2 ^ width
      → s.threshold_exceeded < 2 ^ width
      → Returns
          (λ es n.
            (all_true es ≡ true)
            × (n.contexts ≡ c)
            × (n.perf.metrics ≡ h)
            × (n.perf.stats.total_metrics ≡ (s.total_metrics + 10) % 2 ^ width)
            × (n.perf.stats.threshold_exceeded ≡ (s.threshold_exceeded + 4) % 2 ^ width))
          (test_concurrent_operations width now later
            (some a)
            ts
            (record { contexts = c; perf = resting h s }))
  unfolding test_concurrent_operations create_context create
  test_concurrent_operations-counts now later a ts places c h s u e ten g d unused low few =
      let ps = made ts places in
      let qs = updated 0 ts ps in
      let fit = made-Fitting ts places g in
      let same = addresses-made ts places g in
      let d' : Distinct (addresses ps) = rw same d in
      let same' = addresses-updated 0 ts ps fit ∙ same in
      let d'' : Distinct (addresses qs) = rw same' d in
      let unused' : (b : ℕ) → has b (addresses qs) ≡ true → h b ≡ none = rw same' unused in
      let freed : free_metrics (pointers ps) (resting (put_all h qs) (tally width 0 ts s))
          ≡ ok tt (resting h (tally width 0 ts s)) =
        rw (← pointers-updated 0 ts ps fit)
          (free_metrics-freed qs h (tally width 0 ts s) d'' unused') in
      let total = total-tally 0 s.total_metrics ts s (sym (mod-eq_of_lt low)) in
      let over = exceeded-tally 0 s.threshold_exceeded ts s (sym (mod-eq_of_lt few)) in
      rw
        (
          on_perf,
          create_metrics-made ts places h s g,
          on_contexts,
          start_sampling-holding now later a c,
          on_perf,
          update_metrics-updated width 0 ts ps h s fit d',
          on_contexts,
          stop_sampling-holding now later a c,
          on_perf,
          freed,
          on_contexts,
          put-holding a c (sampled now later) u e refl refl,
        )
        (returns (all_true-trues ts, refl, refl, rw ten at total, rw ten at over))

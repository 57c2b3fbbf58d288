-- ===== src/Performance/Metrics.antt =====
-- The statistics over updates of a metric.
use native.Mathlib.Nat.{mod-eq_of_lt}
use ctrlxt_kernel.Base.{
  ℕ, suc, ◌+◌, ◌%◌, ◌^◌, ◌<◌, ◌≤◌, ◌≡◌, refl, ◌∙◌, false, true, some, List, [], ◌∷◌, ℤ, ltb,
  if◌then◌else◌, arith,
}
use ctrlxt_kernel.Kernel.Errno.{success}
use ctrlxt_kernel.Kernel.Pointer.{addr}
use ctrlxt_kernel.Kernel.Run.{
  ok, Cmd, ◌>>◌, write-read, Returns, returns, Returns-then, Returns-mono,
}
use ctrlxt_kernel.Performance.{
  Metric, Stats, Perf, update_metric, set_threshold, counted, load_metric, zero_stats, get_stats,
  reset_stats,
}

-- What a client does with one metric: report a value, with two readings of the clock, or move
-- the threshold.
pub data MetricOp : Type 0 where
  reports : (now later value : ℕ) → MetricOp
  moves : (threshold : ℕ) → MetricOp

-- How many values are reported, and how many of them are above the threshold of their time.
unfoldable pub reported : List MetricOp → ℕ
reported [] = 0
reported (reports now later v ∷ rest) = suc (reported rest)
reported (moves t ∷ rest) = reported rest

unfoldable pub exceeding : (threshold : ℕ) → List MetricOp → ℕ
exceeding t [] = 0
exceeding t (reports now later v ∷ rest) =
    if ltb t v then suc (exceeding t rest) else exceeding t rest
exceeding t (moves u ∷ rest) = exceeding u rest

exceeding_bounded : (t : ℕ) (ops : List MetricOp) → exceeding t ops ≤ reported ops
unfolding exceeding reported
exceeding_bounded t [] = omega arith
exceeding_bounded t (reports now later v ∷ rest) = ground (arith, exceeding_bounded t rest)
exceeding_bounded t (moves u ∷ rest) = exceeding_bounded u rest

module _ (width : ℕ) where
  abbrev pub use_metric : ℕ → MetricOp → Cmd Perf ℤ
  use_metric a (reports now later v) m = update_metric width now later (addr a) v m
  use_metric a (moves t) m = set_threshold (addr a) t m

  unfoldable pub use_all : ℕ → List MetricOp → Cmd Perf (Unit {0})
  use_all a [] m = ok tt m
  use_all a (o ∷ rest) m = (use_metric a o >> use_all a rest) m

  -- A metric with a threshold, a free lock, and counters with the given values.
  pub record Watches (a threshold total exceeded : ℕ) (m : Perf) : Type 0 where
    pub metric : (x : Metric) × (m.metrics a ≡ some x) × (x.threshold ≡ threshold)
    pub total_eq : m.stats.total_metrics ≡ total
    pub exceeded_eq : m.stats.threshold_exceeded ≡ exceeded
    pub unlocked : m.locked ≡ false

  next_of : (n x : ℕ) → x ≡ n → n + 1 < 2 ^ width → (x + 1) % 2 ^ width ≡ suc n
  next_of n x e fits = let h = mod-eq_of_lt fits in rw e (omega arith)

  pub update_metric-Watches :
      (now later v a t n k : ℕ) (m : Perf)
      → Watches a t n k m
      → n + 1 < 2 ^ width
      → k ≤ n
      → Returns
          (λ r l. (r ≡ success) × Watches a t (suc n) (if ltb t v then suc k else k) l)
          (update_metric width now later (addr a) v m)
  unfolding update_metric
  update_metric-Watches now later v a t n k m w fits le =
      let (x, e, h) = w.metric in
      let exceeded_next : (counted width later v x.threshold m.stats).threshold_exceeded
          ≡ (if ltb t v then suc k else k) =
        ground (
          arith,
          h,
          next_of k m.stats.threshold_exceeded w.exceeded_eq (omega arith),
          w.exceeded_eq,
        ) in
      rw (e, load_metric, w.unlocked)
        (returns (
          refl,
          record {
            metric = (record x { value = v; timestamp = now }, write-read m.metrics a _, h);
            total_eq = next_of n m.stats.total_metrics w.total_eq fits;
            exceeded_eq = exceeded_next;
            unlocked = refl;
          },
        ))

  pub set_threshold-Watches :
      (u a t n k : ℕ) (m : Perf)
      → Watches a t n k m
      → Returns (λ r l. (r ≡ success) × Watches a u n k l) (set_threshold (addr a) u m)
  unfolding set_threshold
  set_threshold-Watches u a t n k m w =
      let (x, e, h) = w.metric in
      rw (e, load_metric)
        (returns (
          refl,
          record {
            metric = (record x { threshold = u }, write-read m.metrics a _, refl);
            total_eq = w.total_eq;
            exceeded_eq = w.exceeded_eq;
            unlocked = w.unlocked;
          },
        ))

  Watches-at :
      {a t n n' k k' : ℕ} {m : Perf} → n ≡ n' → k ≡ k' → Watches a t n k m → Watches a t n' k' m
  Watches-at e f w = record {
    metric = w.metric;
    total_eq = w.total_eq ∙ e;
    exceeded_eq = w.exceeded_eq ∙ f;
    unlocked = w.unlocked;
  }

  use_all-Watches :
      (ops : List MetricOp) (a t n k : ℕ) (m : Perf)
      → Watches a t n k m
      → k ≤ n
      → n + reported ops < 2 ^ width
      → Returns
          (λ _ l. (u : ℕ) × Watches a u (n + reported ops) (k + exceeding t ops) l)
          (use_all a ops m)
  unfolding use_all reported exceeding
  use_all-Watches [] a t n k m w le fits = returns (t, Watches-at (omega arith) (omega arith) w)
  use_all-Watches (reports now later v ∷ rest) a t n k m w le fits =
      let k' = if ltb t v then suc k else k in
      let le' : k' ≤ suc n = ground arith in
      let e : k' + exceeding t rest
          ≡ k + (if ltb t v then suc (exceeding t rest) else exceeding t rest) =
        ground arith in
      Returns-then (update_metric-Watches now later v a t n k m w (omega arith) le) λ _ l x.
        Returns-mono (use_all-Watches rest a t (suc n) k' l x.1 le' (omega arith))
          λ _ z y. (y.0, Watches-at (omega arith) e y.1)
  use_all-Watches (moves u ∷ rest) a t n k m w le fits =
      Returns-then (set_threshold-Watches u a t n k m w)
        λ _ l x. use_all-Watches rest a u n k l x.1 le fits

  -- With the lock free and the metric allocated, the statistics from a reset on are the number of
  -- values reported and the number of those above the threshold of their time, while the first
  -- fits the counters.
  pub reset-counts :
      (ops : List MetricOp) (a : ℕ) (x : Metric) (m : Perf)
      → m.metrics a ≡ some x
      → m.locked ≡ false
      → reported ops < 2 ^ width
      → Returns
          (λ r l.
            (stats : Stats) × (r ≡ (success, some stats))
            × (stats.total_metrics ≡ reported ops)
            × (stats.threshold_exceeded ≡ exceeding x.threshold ops))
          ((do reset_stats; use_all a ops; get_stats true) m)
  unfolding reset_stats get_stats
  reset-counts ops a x m e u fits =
      let w : Watches a x.threshold 0 0 (record m { stats = zero_stats; locked = false }) = record {
        metric = (x, e, refl);
        total_eq = refl;
        exceeded_eq = refl;
        unlocked = refl;
      } in
      rw u (
        Returns-then (use_all-Watches ops a x.threshold 0 0 _ w (omega arith) (omega arith))
          λ _ l y.
            rw y.1.unlocked
              (returns (l.stats, refl, y.1.total_eq ∙ omega arith, y.1.exceeded_eq ∙ omega arith)))

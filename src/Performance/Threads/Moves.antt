-- ===== src/Performance/Threads/Moves.antt =====
-- The invariant of the interleavings, and the two ways in which one thread keeps it.
use ctrlxt_kernel.Base.{
  ℕ, ◌+◌, ◌%◌, ◌^◌, ◌≡◌, ap, ◌∙◌, Bool, List, arith, length, set, total, total-set, total-le_at,
}
use ctrlxt_kernel.Kernel.Run.{Heap}
use ctrlxt_kernel.Performance.{Metric, Stats}
use ctrlxt_kernel.Performance.Threads.{Phase, System, At, one_if}
use ctrlxt_kernel.Performance.Threads.Weights.{in_section, stale, ahead, ahead_above, stale-le}

module _ (width : ℕ) where
  pub record IsCounted (s : System) : Type 0 where
    pub single : total in_section s.threads ≡ one_if s.perf.locked
    pub fresh :
        total (stale s.perf.stats.total_metrics s.perf.stats.threshold_exceeded) s.threads ≡ 0
    pub totals : s.perf.stats.total_metrics ≡ (length s.reports + total ahead s.threads) % 2 ^ width
    pub exceeded :
        s.perf.stats.threshold_exceeded
        ≡ (total one_if s.reports + total ahead_above s.threads) % 2 ^ width

  -- A step of one thread that leaves the statistics.
  pub quiet-IsCounted :
      (s : System) (i : ℕ) (p q : Phase) (h : Heap Metric) (l : Bool) (r : List Bool)
      → At s i p
      → IsCounted s
      → in_section q + one_if s.perf.locked ≡ in_section p + one_if l
      → stale s.perf.stats.total_metrics s.perf.stats.threshold_exceeded q ≡ 0
      → length r + ahead q ≡ length s.reports + ahead p
      → total one_if r + ahead_above q ≡ total one_if s.reports + ahead_above p
      → IsCounted (record {
        perf = record s.perf { metrics = h; locked = l };
        threads = set s.threads i q;
        reports = r;
      })
  quiet-IsCounted s i p q h l r e v lock new count over = record {
    single = omega (arith, total-set in_section s.threads i p q e, v.single);
    fresh = omega (
      arith,
      total-set (stale s.perf.stats.total_metrics s.perf.stats.threshold_exceeded) s.threads i p q
          e,
      v.fresh,
    );
    totals = v.totals ∙ ap (λ n. n % 2 ^ width) (omega (arith, total-set ahead s.threads i p q e));
    exceeded =
        v.exceeded
        ∙ ap (λ n. n % 2 ^ width) (omega (arith, total-set ahead_above s.threads i p q e));
  }

  -- A step of a thread with the lock.
  pub loud-IsCounted :
      (s : System) (i : ℕ) (p q : Phase) (t : Stats)
      → At s i p
      → IsCounted s
      → in_section p ≡ 1
      → in_section q ≡ 1
      → stale t.total_metrics t.threshold_exceeded q ≡ 0
      → t.total_metrics ≡ (length s.reports + total ahead (set s.threads i q)) % 2 ^ width
      → t.threshold_exceeded
        ≡ (total one_if s.reports + total ahead_above (set s.threads i q)) % 2 ^ width
      → IsCounted (record s { perf = record s.perf { stats = t }; threads = set s.threads i q })
  loud-IsCounted s i p q t e v was stays new count over =
      let w = stale t.total_metrics t.threshold_exceeded in
      record {
        single = omega (arith, total-set in_section s.threads i p q e, v.single);
        fresh = ground (
          arith,
          total-set w s.threads i p q e,
          total-le_at w in_section (stale-le t.total_metrics t.threshold_exceeded) s.threads i p e,
          v.single,
        );
        totals = count;
        exceeded = over;
      }

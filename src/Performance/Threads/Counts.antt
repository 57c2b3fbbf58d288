-- ===== src/Performance/Threads/Counts.antt =====
-- No report is lost, whatever the interleaving.
use native.Mathlib.Nat.{zero-mod}
use ctrlxt_kernel.Base.{
  ℕ, suc, zero, ◌+◌, ◌%◌, ◌^◌, ◌≡◌, refl, sym, ap, ◌∙◌, false, true, some, arith, length, total,
  total-le,
}
use ctrlxt_kernel.Kernel.Run.{Returns, returns}
use ctrlxt_kernel.Kernel.Errno.{success}
use ctrlxt_kernel.Performance.{Perf, Stats, zero_stats, get_stats}
use ctrlxt_kernel.Performance.Threads.{
  Phase, outside, System, Reach, here, next, one_if, all_outside, initial,
}
use ctrlxt_kernel.Performance.Threads.Weights.{
  in_section, ahead, ahead_above, ahead-le, ahead_above-le,
}
use ctrlxt_kernel.Performance.Threads.Moves.{IsCounted}
use ctrlxt_kernel.Performance.Threads.Steps.{Step-IsCounted}

module _ (width : ℕ) where
  Reach-IsCounted : {s t : System} → IsCounted width s → Reach width s t → IsCounted width t
  Reach-IsCounted v here = v
  Reach-IsCounted v (next r st) = Step-IsCounted width st (Reach-IsCounted v r)

  total-all_outside : (w : Phase → ℕ) → w outside ≡ 0 → (n : ℕ) → total w (all_outside n) ≡ 0
  total-all_outside w z zero = refl
  total-all_outside w z (suc n) = omega (arith, z, total-all_outside w z n)

  initial-IsCounted :
      (n : ℕ) (m : Perf) → m.stats ≡ zero_stats → m.locked ≡ false → IsCounted width (initial n m)
  initial-IsCounted n m none_yet free = record {
    single = rw free (total-all_outside in_section refl n);
    fresh = total-all_outside _ refl n;
    totals = rw (none_yet, total-all_outside ahead refl n) (sym (zero-mod (2 ^ width)));
    exceeded = rw (none_yet, total-all_outside ahead_above refl n) (sym (zero-mod (2 ^ width)));
  }

  -- From statistics of zero and a free lock on, in any interleaving of any number of threads that
  -- call quantum_perf_update_metric and quantum_perf_set_threshold, where the lock is free
  -- quantum_perf_get_stats answers with the number of finished reports and the number of those that
  -- were above their threshold, as far as the width of the counters goes: no update is lost.
  pub Reach-counts :
      (n : ℕ) (m : Perf) (s : System)
      → m.stats ≡ zero_stats
      → m.locked ≡ false
      → Reach width (initial n m) s
      → s.perf.locked ≡ false
      → Returns
          (λ r _.
            (stats : Stats) × (r ≡ (success, some stats))
            × (stats.total_metrics ≡ length s.reports % 2 ^ width)
            × (stats.threshold_exceeded ≡ total one_if s.reports % 2 ^ width))
          (get_stats true s.perf)
  unfolding get_stats
  Reach-counts n m s none_yet free r now_free =
      let v = Reach-IsCounted (initial-IsCounted n m none_yet free) r in
      let nobody : total in_section s.threads ≡ 0 = rw (v.single, now_free) refl in
      let all_done : length s.reports + total ahead s.threads ≡ length s.reports =
        omega (arith, total-le ahead in_section ahead-le s.threads) in
      let all_told : total one_if s.reports + total ahead_above s.threads ≡ total one_if s.reports =
        omega (arith, total-le ahead_above in_section ahead_above-le s.threads) in
      rw now_free (
        returns (
          s.perf.stats,
          refl,
          v.totals ∙ ap (λ k. k % 2 ^ width) all_done,
          v.exceeded ∙ ap (λ k. k % 2 ^ width) all_told,
        ))

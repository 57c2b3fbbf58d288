-- ===== src/Performance/Threads/Steps.antt =====
-- Each step of a thread keeps the invariant.
use native.Mathlib.Nat.{mod-add-mod}
use ctrlxt_kernel.Base.{ℕ, ◌+◌, ◌%◌, ◌^◌, ◌≡◌, refl, ap, ◌∙◌, true, arith, total-set, eqb→eq}
use ctrlxt_kernel.Performance.{increment}
use ctrlxt_kernel.Performance.Threads.{
  outside, value_stored, waiting, inside, total_read, total_stored, dated, found_above,
  exceeded_read, leaving, System, At, goes, Move, stores_value, stores_timestamp, locks,
  reads_total, stores_total, stores_last_update, finds_above, finds_below, reads_exceeded,
  stores_exceeded, unlocks, Step, moves, sets_threshold,
}
use ctrlxt_kernel.Performance.Threads.Weights.{in_section, stale, ahead, ahead_above}
use ctrlxt_kernel.Performance.Threads.Moves.{IsCounted, quiet-IsCounted, loud-IsCounted}

module _ (width : ℕ) where
  -- What a thread has read of a counter is still its value.
  total_read-fresh :
      (s : System) (i a value n : ℕ)
      → At s i (total_read a value n)
      → IsCounted width s
      → n ≡ s.perf.stats.total_metrics
  total_read-fresh s i a value n e v =
      let w = stale s.perf.stats.total_metrics s.perf.stats.threshold_exceeded in
      eqb→eq n s.perf.stats.total_metrics
        (ground (arith, total-set w s.threads i (total_read a value n) outside e, v.fresh))

  exceeded_read-fresh :
      (s : System) (i n : ℕ)
      → At s i (exceeded_read n)
      → IsCounted width s
      → n ≡ s.perf.stats.threshold_exceeded
  exceeded_read-fresh s i n e v =
      let w = stale s.perf.stats.total_metrics s.perf.stats.threshold_exceeded in
      eqb→eq n s.perf.stats.threshold_exceeded
        (ground (arith, total-set w s.threads i (exceeded_read n) outside e, v.fresh))

  counts_on :
      (n x k l : ℕ) → n ≡ x → x ≡ k % 2 ^ width → k + 1 ≡ l → increment width n ≡ l % 2 ^ width
  counts_on n x k l e f g = rw (e, f, mod-add-mod, g) refl

  stores_total-IsCounted :
      (s : System) (i a value n : ℕ)
      → At s i (total_read a value n)
      → IsCounted width s
      → IsCounted width (
          goes
            (record s {
              perf = record s.perf {
                stats = record s.perf.stats { total_metrics = increment width n };
              };
            })
            i
            (total_stored a value))
  stores_total-IsCounted s i a value n e v =
      loud-IsCounted width s i (total_read a value n) (total_stored a value) _ e v refl refl refl
        (counts_on n _ _ _ (total_read-fresh s i a value n e v) v.totals
          (omega (arith, total-set ahead s.threads i _ (total_stored a value) e)))
        (v.exceeded
          ∙ ap (λ n. n % 2 ^ width)
              (omega (arith, total-set ahead_above s.threads i _ (total_stored a value) e)))

  stores_exceeded-IsCounted :
      (s : System) (i n : ℕ)
      → At s i (exceeded_read n)
      → IsCounted width s
      → IsCounted width (
          goes
            (record s {
              perf = record s.perf {
                stats = record s.perf.stats { threshold_exceeded = increment width n };
              };
            })
            i
            (leaving true))
  stores_exceeded-IsCounted s i n e v =
      loud-IsCounted width s i (exceeded_read n) (leaving true) _ e v refl refl refl
        (v.totals
          ∙ ap (λ n. n % 2 ^ width) (omega (arith, total-set ahead s.threads i _ (leaving true) e)))
        (counts_on n _ _ _ (exceeded_read-fresh s i n e v) v.exceeded
          (omega (arith, total-set ahead_above s.threads i _ (leaving true) e)))

  stores_last_update-IsCounted :
      (s : System) (i a value now : ℕ)
      → At s i (total_stored a value)
      → IsCounted width s
      → IsCounted width (
          goes
            (record s {
              perf = record s.perf { stats = record s.perf.stats { last_update = now } };
            })
            i
            (dated a value))
  stores_last_update-IsCounted s i a value now e v =
      loud-IsCounted width s i (total_stored a value) (dated a value) _ e v refl refl refl
        (v.totals
          ∙ ap (λ n. n % 2 ^ width)
              (omega (arith, total-set ahead s.threads i _ (dated a value) e)))
        (v.exceeded
          ∙ ap (λ n. n % 2 ^ width)
              (omega (arith, total-set ahead_above s.threads i _ (dated a value) e)))

  Move-IsCounted : {i : ℕ} {s t : System} → Move width i s t → IsCounted width s → IsCounted width t
  Move-IsCounted (stores_value s i a value x e at_a) v =
      quiet-IsCounted width s i outside _ _ _ _ e v (omega arith) refl (omega arith) (omega arith)
  Move-IsCounted (stores_timestamp s i a value now x e at_a) v =
      quiet-IsCounted width s i (value_stored a value) _ _ _ _ e v (omega arith) refl (omega arith)
        (omega arith)
  Move-IsCounted (locks s i a value e free) v =
      quiet-IsCounted width s i (waiting a value) _ _ _ _ e v (rw free (omega arith)) refl
        (omega arith) (omega arith)
  Move-IsCounted (reads_total s i a value e) v =
      quiet-IsCounted width s i (inside a value) _ _ _ _ e v (omega arith) (ground arith)
        (omega arith) (omega arith)
  Move-IsCounted (stores_total s i a value n e) v = stores_total-IsCounted s i a value n e v
  Move-IsCounted (stores_last_update s i a value now e) v =
      stores_last_update-IsCounted s i a value now e v
  Move-IsCounted (finds_above s i a value x e at_a h) v =
      quiet-IsCounted width s i (dated a value) _ _ _ _ e v (omega arith) refl (omega arith)
        (omega arith)
  Move-IsCounted (finds_below s i a value x e at_a h) v =
      quiet-IsCounted width s i (dated a value) _ _ _ _ e v (omega arith) refl (omega arith)
        (omega arith)
  Move-IsCounted (reads_exceeded s i e) v =
      quiet-IsCounted width s i found_above _ _ _ _ e v (omega arith) (ground arith) (omega arith)
        (omega arith)
  Move-IsCounted (stores_exceeded s i n e) v = stores_exceeded-IsCounted s i n e v
  Move-IsCounted (unlocks s i above e) v =
      quiet-IsCounted width s i (leaving above) _ _ _ _ e v
        (ground (arith, total-set in_section s.threads i (leaving above) outside e, v.single)) refl
        (omega arith) (ground arith)

  pub Step-IsCounted : {s t : System} → Step width s t → IsCounted width s → IsCounted width t
  Step-IsCounted (moves s t i mv) v = Move-IsCounted mv v
  Step-IsCounted (sets_threshold s i a threshold x e at_a) v = record {
    single = v.single;
    fresh = v.fresh;
    totals = v.totals;
    exceeded = v.exceeded;
  }

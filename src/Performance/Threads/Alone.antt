-- ===== src/Performance/Threads/Alone.antt =====
-- A thread that is not interrupted: its steps are the function quantum_perf_update_metric.
use ctrlxt_kernel.Base.{
  ◌≡◌, refl, true, false, some, ap, if◌then◌else◌, Bool, ℕ, ltb, Bool-cases, inl, inr,
  get_elem?-set_self, List, ◌∷◌,
}
use ctrlxt_kernel.Kernel.Errno.{success}
use ctrlxt_kernel.Kernel.Pointer.{addr}
use ctrlxt_kernel.Kernel.Run.{ok, Returns, returns, write, write-read, write-write}
use ctrlxt_kernel.Performance.{Metric, Perf, update_metric, load_metric, counted, increment}
use ctrlxt_kernel.Performance.Threads.{
  Phase, outside, value_stored, waiting, inside, total_read, total_stored, dated, found_above,
  exceeded_read, leaving, System, At, goes, Move, stores_value, stores_timestamp, locks,
  reads_total, stores_total, stores_last_update, finds_above, finds_below, reads_exceeded,
  stores_exceeded, unlocks, ReachAlone, here_alone, next_alone,
}

-- The thread `i` alone can come to the phase `q` with the monitor in the state `m` and the finished
-- reports `r`.
abbrev Comes : ℕ → System → ℕ → Phase → Perf → List Bool → Type 0
Comes width s i q m r =
    (t : System) × ReachAlone width i s t × At t i q × (t.perf ≡ m) × (t.reports ≡ r)

module _ (width : ℕ) (s : System) (i : ℕ) where
  reads_total_as :
      (t : System) (a value n : ℕ)
      → At t i (inside a value)
      → t.perf.stats.total_metrics ≡ n
      → Move width i t (goes t i (total_read a value n))
  reads_total_as t a value n e f = rw (← f) (reads_total t i a value e)

  reads_exceeded_as :
      (t : System) (n : ℕ)
      → At t i found_above
      → t.perf.stats.threshold_exceeded ≡ n
      → Move width i t (goes t i (exceeded_read n))
  reads_exceeded_as t n e f = rw (← f) (reads_exceeded t i e)

  -- One more step of the thread.
  goes_on :
      {p q : Phase} {m n : Perf} {r r' : List Bool}
      → Comes width s i p m r
      → ((t : System)
          → At t i p
          → t.perf ≡ m
          → t.reports ≡ r
          → (u : System) × Move width i t u × At u i q × (u.perf ≡ n) × (u.reports ≡ r'))
      → Comes width s i q n r'
  goes_on (t, l, e, f, g) step =
      let (u, mv, at_u, f', g') = step t e f g in (u, next_alone l mv, at_u, f', g')

  -- Up to the lock.
  inside-Comes :
      (a value now : ℕ) (x : Metric)
      → At s i outside
      → s.perf.metrics a ≡ some x
      → s.perf.locked ≡ false
      → Comes width s i
          (inside a value)
          (record s.perf {
            metrics = write s.perf.metrics a (some (record x { value = value; timestamp = now }));
            locked = true;
          })
          s.reports
  inside-Comes a value now x e at_a free =
      let y = record x { value = value } in
      let z = record y { timestamp = now } in
      let m1 = record s.perf { metrics = write s.perf.metrics a (some y) } in
      let m2 = record s.perf { metrics = write s.perf.metrics a (some z) } in
      let one : Comes width s i (value_stored a value) m1 s.reports =
        goes_on (s, here_alone, e, refl, refl)
          λ t e' f g. (
            _,
            stores_value t i a value x e' (rw f at_a),
            get_elem?-set_self t.threads i outside _ e',
            rw f refl,
            g,
          ) in
      let two : Comes width s i (waiting a value) m2 s.reports = goes_on one λ t e' f g. (
        _,
        stores_timestamp t i a value now y e' (rw f (write-read s.perf.metrics a _)),
        get_elem?-set_self t.threads i (value_stored a value) _ e',
        rw f (rw write-write refl),
        g,
      ) in
      goes_on two λ t e' f g. (
        _,
        locks t i a value e' (rw f free),
        get_elem?-set_self t.threads i (waiting a value) _ e',
        rw f refl,
        g,
      )

  -- Up to the test against the threshold.
  dated-Comes :
      (a value later : ℕ) (m : Perf)
      → Comes width s i (inside a value) m s.reports
      → Comes width s i
          (dated a value)
          (record m {
            stats = record m.stats {
              total_metrics = increment width m.stats.total_metrics;
              last_update = later;
            };
          })
          s.reports
  dated-Comes a value later m c =
      let n = record m {
        stats = record m.stats { total_metrics = increment width m.stats.total_metrics };
      } in
      let one : Comes width s i (total_read a value m.stats.total_metrics) m s.reports =
        goes_on c λ t e f g. (
          _,
          reads_total_as t a value m.stats.total_metrics e (ap (λ m'. m'.stats.total_metrics) f),
          get_elem?-set_self t.threads i (inside a value) _ e,
          f,
          g,
        ) in
      let two : Comes width s i (total_stored a value) n s.reports = goes_on one λ t e f g. (
        _,
        stores_total t i a value m.stats.total_metrics e,
        get_elem?-set_self t.threads i (total_read a value _) _ e,
        rw f refl,
        g,
      ) in
      goes_on two λ t e f g. (
        _,
        stores_last_update t i a value later e,
        get_elem?-set_self t.threads i (total_stored a value) _ e,
        rw f refl,
        g,
      )

  -- Up to the unlock, on either side of the test.
  leaving-Comes :
      (a value : ℕ) (x : Metric) (m : Perf)
      → m.metrics a ≡ some x
      → Comes width s i (dated a value) m s.reports
      → Comes width s i
          (leaving (ltb x.threshold value))
          (record m {
            stats = record m.stats {
              threshold_exceeded =
                  if ltb x.threshold value
                  then increment width m.stats.threshold_exceeded
                  else m.stats.threshold_exceeded;
            };
          })
          s.reports
  leaving-Comes a value x m at_a c = elim (Bool-cases (ltb x.threshold value)) [
    | inl over ↦
        let one : Comes width s i found_above m s.reports = goes_on c λ t e f g. (
          _,
          finds_above t i a value x e (rw f at_a) over,
          get_elem?-set_self t.threads i (dated a value) _ e,
          f,
          g,
        ) in
        let two : Comes width s i (exceeded_read m.stats.threshold_exceeded) m s.reports =
          goes_on one λ t e f g. (
            _,
            reads_exceeded_as t m.stats.threshold_exceeded e
                (ap (λ m'. m'.stats.threshold_exceeded) f),
            get_elem?-set_self t.threads i found_above _ e,
            f,
            g,
          ) in
        rw over (
          goes_on two λ t e f g. (
            _,
            stores_exceeded t i m.stats.threshold_exceeded e,
            get_elem?-set_self t.threads i (exceeded_read _) _ e,
            rw f refl,
            g,
          ))
    | inr below ↦ rw below (
        goes_on c λ t e f g. (
          _,
          finds_below t i a value x e (rw f at_a) below,
          get_elem?-set_self t.threads i (dated a value) _ e,
          f,
          g,
        ))
  ]

  outside-Comes :
      (above : Bool) (m : Perf)
      → Comes width s i (leaving above) m s.reports
      → Comes width s i outside (record m { locked = false }) (above ∷ s.reports)
  outside-Comes above m c = goes_on c λ t e f g. (
    _,
    unlocks t i above e,
    get_elem?-set_self t.threads i (leaving above) _ e,
    rw f refl,
    ap (λ r. above ∷ r) g,
  )

  -- A call of quantum_perf_update_metric on a metric that is allocated, while the lock is free and
  -- its thread is in no other call, returns 0. Steps of quantum_perf_update_metric by its thread
  -- alone lead to the monitor that the call returns, with the thread in no call and exactly one
  -- more finished report, which says whether the value is above the threshold of the metric.
  pub update_metric-ReachAlone :
      (a value now later : ℕ) (x : Metric)
      → At s i outside
      → s.perf.metrics a ≡ some x
      → s.perf.locked ≡ false
      → Returns
          (λ r m.
            (r ≡ success)
            × ((t : System) × ReachAlone width i s t
                × At t i outside
                × (t.perf ≡ m)
                × (t.reports ≡ ltb x.threshold value ∷ s.reports)))
          (update_metric width now later (addr a) value s.perf)
  unfolding update_metric
  update_metric-ReachAlone a value now later x e at_a free =
      let z = record x { value = value; timestamp = now } in
      let c = dated-Comes a value later _ (inside-Comes a value now x e at_a free) in
      let final =
        outside-Comes _ _ (leaving-Comes a value z _ (write-read s.perf.metrics a (some z)) c) in
      let run : update_metric width now later (addr a) value s.perf
          ≡ ok success (record s.perf {
            metrics = write s.perf.metrics a (some z);
            stats = counted width later value x.threshold s.perf.stats;
            locked = false;
          }) =
        rw (load_metric, at_a, free) refl in
      rw run (returns (refl, final))

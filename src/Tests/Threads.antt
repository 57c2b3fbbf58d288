-- ===== src/Tests/Threads.antt =====
-- Interleavings of threads: kernel/performance/performance.c and kernel/quantum/quantum_memory.c.
use ctrlxt_kernel.Base.{
  ℕ, Bool, ◌≡◌, ◌%◌, ◌^◌, refl, true, false, none, some, [], ◌∷◌, ◌==◌, if◌then◌else◌,
}
use ctrlxt_kernel.Kernel.Errno.{success}
use ctrlxt_kernel.Kernel.Pointer.{addr}
use ctrlxt_kernel.Kernel.Run.{Returns, Heap, write}
use ctrlxt_kernel.Performance.{Metric, Stats, Perf, zero_stats, update_metric, get_stats}
use ctrlxt_kernel.Performance.Threads.{
  Phase, outside, value_stored, waiting, inside, total_read, total_stored, dated, found_above,
  exceeded_read, leaving, System, At, stores_value, stores_timestamp, locks, reads_total,
  stores_total, stores_last_update, finds_above, reads_exceeded, stores_exceeded, unlocks, moves,
  Reach, ReachAlone, here, next, initial,
}
use ctrlxt_kernel.Performance.Threads.Counts.{Reach-counts}
use ctrlxt_kernel.Performance.Threads.Alone.{update_metric-ReachAlone}

-- A CPU metric at address 5.
abbrev metric : Metric
metric = record { metric_type = 0; value = 0; threshold = 80; timestamp = 0 }

abbrev monitor : Perf
monitor = record {
  metrics = λ a. if a == 5 then some metric else none;
  stats = zero_stats;
  locked = false;
}

abbrev heap_of : Metric → Heap Metric → Heap Metric
heap_of x h = write h 5 (some x)

-- What thread 0 writes first, then what thread 1 writes while thread 0 holds the lock.
abbrev stored : Heap Metric
stored = heap_of (record metric { value = 90 }) monitor.metrics

abbrev stamped : Heap Metric
stamped = heap_of (record metric { value = 90; timestamp = 3 }) stored

abbrev stored_twice : Heap Metric
stored_twice = heap_of (record metric { value = 75; timestamp = 3 }) stamped

abbrev stage :
    Heap Metric → (total_metrics last_update exceeded : ℕ) → Bool → Phase → Phase → System
stage h t l e locked p q = record {
  perf = record {
    metrics = h;
    stats = record { total_metrics = t; last_update = l; threshold_exceeded = e };
    locked = locked;
  };
  threads = p ∷ q ∷ [];
  reports = [];
}

-- Thread 0 has reported 90, and thread 1 has stored 75 and not reported it.
abbrev one_report : System
one_report = record (stage stored_twice 1 4 1 false outside (value_stored 5 75)) {
  reports = true ∷ [];
}

locked-Reach :
    Reach 64 (initial 2 monitor) (stage stored_twice 0 0 0 true (inside 5 90) (value_stored 5 75))
unfolding write
locked-Reach =
    let s0 = initial 2 monitor in
    let s1 = stage stored 0 0 0 false (value_stored 5 90) outside in
    let s2 = stage stamped 0 0 0 false (waiting 5 90) outside in
    let s3 = stage stamped 0 0 0 true (inside 5 90) outside in
    let r1 : Reach 64 s0 s1 = next here (moves s0 _ 0 (stores_value s0 0 5 90 metric refl refl)) in
    let r2 : Reach 64 s0 s2 =
      next r1
        (moves s1 _ 0 (stores_timestamp s1 0 5 90 3 (record metric { value = 90 }) refl refl)) in
    let r3 : Reach 64 s0 s3 = next r2 (moves s2 _ 0 (locks s2 0 5 90 refl refl)) in
    next r3 (
      moves s3 _ 1 (stores_value s3 1 5 75 (record metric { value = 90; timestamp = 3 }) refl refl))

one_report-Reach : Reach 64 (initial 2 monitor) one_report
unfolding write
one_report-Reach =
    let s0 = initial 2 monitor in
    let q = value_stored 5 75 in
    let s4 = stage stored_twice 0 0 0 true (inside 5 90) q in
    let s5 = stage stored_twice 0 0 0 true (total_read 5 90 0) q in
    let s6 = stage stored_twice 1 0 0 true (total_stored 5 90) q in
    let s7 = stage stored_twice 1 4 0 true (dated 5 90) q in
    let s8 = stage stored_twice 1 4 0 true found_above q in
    let s9 = stage stored_twice 1 4 0 true (exceeded_read 0) q in
    let s10 = stage stored_twice 1 4 1 true (leaving true) q in
    let r5 : Reach 64 s0 s5 = next locked-Reach (moves s4 _ 0 (reads_total s4 0 5 90 refl)) in
    let r6 : Reach 64 s0 s6 = next r5 (moves s5 _ 0 (stores_total s5 0 5 90 0 refl)) in
    let r7 : Reach 64 s0 s7 = next r6 (moves s6 _ 0 (stores_last_update s6 0 5 90 4 refl)) in
    let r8 : Reach 64 s0 s8 = next r7 (
      moves s7 _ 0
        (finds_above s7 0 5 90 (record metric { value = 75; timestamp = 3 }) refl refl refl)) in
    let r9 : Reach 64 s0 s9 = next r8 (moves s8 _ 0 (reads_exceeded s8 0 refl)) in
    let r10 : Reach 64 s0 s10 = next r9 (moves s9 _ 0 (stores_exceeded s9 0 0 refl)) in
    next r10 (moves s10 _ 0 (unlocks s10 0 true refl))

Reach-counts_example :
    Returns
      (λ r _.
        (stats : Stats) × (r ≡ (success, some stats))
        × (stats.total_metrics ≡ 1 % 2 ^ 64)
        × (stats.threshold_exceeded ≡ 1 % 2 ^ 64))
      (get_stats true one_report.perf)
Reach-counts_example = Reach-counts 64 2 monitor one_report refl refl one_report-Reach refl

update_metric-ReachAlone_example :
    Returns
      (λ r m.
        (r ≡ success)
        × ((t : System) × ReachAlone 64 1 (initial 2 monitor) t
            × At t 1 outside
            × (t.perf ≡ m)
            × (t.reports ≡ true ∷ [])))
      (update_metric 64 3 4 (addr 5) 90 monitor)
update_metric-ReachAlone_example =
    update_metric-ReachAlone 64 (initial 2 monitor) 1 5 90 3 4 metric refl refl refl

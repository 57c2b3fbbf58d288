-- ===== src/Performance/Threads.antt =====
-- Threads that call quantum_perf_update_metric and quantum_perf_set_threshold on shared metrics, in
-- any interleaving. Each read and each write of a shared field is a step of its own, and each step is
-- that of one thread; what stands between the lock and the unlock may be interleaved with the other
-- threads as well.
pub mod Weights
pub mod Moves
pub mod Steps
pub mod Counts
pub mod Alone
use ctrlxt_kernel.Base.{
  ℕ, ◌≡◌, Bool, true, false, some, List, [], ◌∷◌, ltb, if◌then◌else◌, get_elem?, set, zero, suc,
  total,
}
use ctrlxt_kernel.Kernel.Run.{write}
use ctrlxt_kernel.Performance.{Metric, Stats, Perf, increment}

-- Where a thread stands in quantum_perf_update_metric, with the address of its metric, the value
-- that it reports and what it has read.
pub data Phase : Type 0 where
  outside : Phase
  value_stored waiting inside : (a value : ℕ) → Phase
  total_read : (a value total_metrics : ℕ) → Phase
  total_stored dated : (a value : ℕ) → Phase
  found_above : Phase
  exceeded_read : (threshold_exceeded : ℕ) → Phase
  leaving : (above : Bool) → Phase

-- The state of the monitor, the threads, and for each finished report, the latest first, whether
-- its value was above the threshold.
pub record System : Type 0 where
  pub perf : Perf
  pub threads : List Phase
  pub reports : List Bool

abbrev pub At : System → ℕ → Phase → Type 0
At s i p = get_elem? s.threads i ≡ some p

abbrev pub goes : System → ℕ → Phase → System
goes s i p = record s { threads = set s.threads i p }

abbrev pub with_metric : System → ℕ → Metric → System
with_metric s a x = record s { perf = record s.perf { metrics = write s.perf.metrics a (some x) } }

abbrev pub with_stats : System → Stats → System
with_stats s stats = record s { perf = record s.perf { stats = stats } }

abbrev pub with_lock : System → Bool → System
with_lock s locked = record s { perf = record s.perf { locked = locked } }

module _ (width : ℕ) where
  -- One step of the thread `i` in quantum_perf_update_metric.
  pub data Move : ℕ → System → System → Type 0 where
    stores_value :
        (s : System) (i a value : ℕ) (x : Metric)
        → At s i outside
        → s.perf.metrics a ≡ some x
        → Move i s (goes (with_metric s a (record x { value = value })) i (value_stored a value))
    stores_timestamp :
        (s : System) (i a value now : ℕ) (x : Metric)
        → At s i (value_stored a value)
        → s.perf.metrics a ≡ some x
        → Move i s (goes (with_metric s a (record x { timestamp = now })) i (waiting a value))
    locks :
        (s : System) (i a value : ℕ)
        → At s i (waiting a value)
        → s.perf.locked ≡ false
        → Move i s (goes (with_lock s true) i (inside a value))
    reads_total :
        (s : System) (i a value : ℕ)
        → At s i (inside a value)
        → Move i s (goes s i (total_read a value s.perf.stats.total_metrics))
    stores_total :
        (s : System) (i a value n : ℕ)
        → At s i (total_read a value n)
        → Move i s (
            goes
              (with_stats s (record s.perf.stats { total_metrics = increment width n }))
              i
              (total_stored a value))
    stores_last_update :
        (s : System) (i a value now : ℕ)
        → At s i (total_stored a value)
        → Move i s
            (goes (with_stats s (record s.perf.stats { last_update = now })) i (dated a value))
    finds_above :
        (s : System) (i a value : ℕ) (x : Metric)
        → At s i (dated a value)
        → s.perf.metrics a ≡ some x
        → ltb x.threshold value ≡ true
        → Move i s (goes s i found_above)
    finds_below :
        (s : System) (i a value : ℕ) (x : Metric)
        → At s i (dated a value)
        → s.perf.metrics a ≡ some x
        → ltb x.threshold value ≡ false
        → Move i s (goes s i (leaving false))
    reads_exceeded :
        (s : System) (i : ℕ)
        → At s i found_above
        → Move i s (goes s i (exceeded_read s.perf.stats.threshold_exceeded))
    stores_exceeded :
        (s : System) (i n : ℕ)
        → At s i (exceeded_read n)
        → Move i s (
            goes
              (with_stats s (record s.perf.stats { threshold_exceeded = increment width n }))
              i
              (leaving true))
    unlocks :
        (s : System) (i : ℕ) (above : Bool)
        → At s i (leaving above)
        → Move i s (goes (record (with_lock s false) { reports = above ∷ s.reports }) i outside)

  -- quantum_perf_set_threshold is one step of a thread that is in no other call.
  pub data Step : System → System → Type 0 where
    moves : (s t : System) (i : ℕ) → Move i s t → Step s t
    sets_threshold :
        (s : System) (i a threshold : ℕ) (x : Metric)
        → At s i outside
        → s.perf.metrics a ≡ some x
        → Step s (with_metric s a (record x { threshold = threshold }))

  pub data Reach (s : System) : System → Type 0 where
    here : Reach s s
    next : {t u : System} → Reach s t → Step t u → Reach s u

  -- Steps of the thread `i` in quantum_perf_update_metric, and of no other thread.
  pub data ReachAlone (i : ℕ) (s : System) : System → Type 0 where
    here_alone : ReachAlone i s s
    next_alone : {t u : System} → ReachAlone i s t → Move i t u → ReachAlone i s u

abbrev pub one_if : Bool → ℕ
one_if b = if b then 1 else 0

abbrev pub all_outside : ℕ → List Phase
all_outside zero = []
all_outside (suc n) = outside ∷ all_outside n

abbrev pub initial : ℕ → Perf → System
initial n m = record { perf = m; threads = all_outside n; reports = [] }

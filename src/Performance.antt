-- ===== src/Performance.antt =====
-- The performance monitor, kernel/performance/performance.c, over the contexts of Contexts.
-- Each call of ktime_get is an argument, in nanoseconds, a 64-bit pattern. The header does not
-- declare the fields that the source counts in, so the width of those counters is an argument.
-- get_metric, get_threshold and get_stats return what the source stores through its pointer; their
-- argument `out` is false where that pointer is NULL.
pub mod Metrics
pub mod Sampling
pub mod Threads
use ctrlxt_kernel.Base.{
  ℕ, ◌+◌, ◌-◌, ◌%◌, ◌^◌, Bool, true, false, Option, none, some, ℤ, ltb, if◌then◌else◌,
}
use ctrlxt_kernel.Kernel.Errno.{success, enomem, einval, ebusy}
use ctrlxt_kernel.Kernel.Pointer.{Pointer, null, addr, err_ptr}
use ctrlxt_kernel.Kernel.Run.{
  ok, fault, Cmd, pure, ◌>>=◌, ◌>>◌, and_then, modify, gets, Heap, write,
}
use ctrlxt_kernel.Contexts.Defs.{
  Context, Contexts, load, install, uninstall, create, get, put, update_body,
}

-- The fields of a context that are this module's own.
pub record Sampler : Type 0 where
  pub sampling_rate : ℕ
  pub sampling_active : Bool
  pub sampling_start : ℕ
  pub sampling_end : ℕ

pub record Metric : Type 0 where
  pub metric_type : ℕ
  pub value : ℕ
  pub threshold : ℕ
  pub timestamp : ℕ

pub record Stats : Type 0 where
  pub total_metrics : ℕ
  pub last_update : ℕ
  pub threshold_exceeded : ℕ

-- The metrics and the statistics, with the lock that guards the statistics.
pub record Perf : Type 0 where
  pub metrics : Heap Metric
  pub stats : Stats
  pub locked : Bool

abbrev pub metric_cpu : ℕ
metric_cpu = 0

abbrev pub metric_io : ℕ
metric_io = 4

abbrev pub threshold_normal : ℕ
threshold_normal = 80

abbrev pub zero_stats : Stats
zero_stats = record { total_metrics = 0; last_update = 0; threshold_exceeded = 0 }

abbrev pub lock : Cmd Perf (Unit {0})
lock m = if m.locked then fault else ok tt (record m { locked = true })

abbrev pub unlock : Cmd Perf (Unit {0})
unlock m = ok tt (record m { locked = false })

abbrev pub load_metric : Pointer → Cmd Perf Metric
load_metric null m = fault
load_metric (err_ptr e) m = fault
load_metric (addr a) m = elim (m.metrics a) [ none ↦ fault | some x ↦ ok x m ]

abbrev pub store_metric : ℕ → Metric → Cmd Perf (Unit {0})
store_metric a x m = ok tt (record m { metrics = write m.metrics a (some x) })

unfoldable pub create_metric : Option ℕ → (now metric_type : ℕ) → Cmd Perf Pointer
create_metric kzalloc now ty =
    if ltb ty metric_cpu
    then pure (err_ptr einval)
    else if ltb metric_io ty
    then pure (err_ptr einval)
    else elim kzalloc [
      | none ↦ pure (err_ptr enomem)
      | some a ↦ do
        store_metric a
            (record { metric_type = ty; value = 0; threshold = threshold_normal; timestamp = now })
        pure (addr a)
    ]

module _ (width : ℕ) where
  abbrev pub increment : ℕ → ℕ
  increment n = (n + 1) % 2 ^ width

  -- The statistics behind one update.
  abbrev pub counted : (now value threshold : ℕ) → Stats → Stats
  counted now value threshold s = record {
    total_metrics = increment s.total_metrics;
    last_update = now;
    threshold_exceeded =
        if ltb threshold value then increment s.threshold_exceeded else s.threshold_exceeded;
  }

  -- `now` and `later` are the two readings of the clock.
  unfoldable pub update_metric : (now later : ℕ) → Pointer → (value : ℕ) → Cmd Perf ℤ
  update_metric now later null value m = ok einval m
  update_metric now later (err_ptr e) value m = fault
  update_metric now later (addr a) value m =
      (do
        x ← load_metric (addr a)
        store_metric a (record x { value = value; timestamp = now })
        lock
        modify λ n. record n { stats = counted later value x.threshold n.stats }
        unlock
        pure success)
        m

unfoldable pub get_metric : (out : Bool) → Pointer → Cmd Perf (ℤ × ℕ)
get_metric out null m = ok (einval, 0) m
get_metric false (addr a) m = ok (einval, 0) m
get_metric true (addr a) m = (do x ← load_metric (addr a); pure (success, x.value)) m
get_metric false (err_ptr e) m = ok (einval, 0) m
get_metric true (err_ptr e) m = fault

unfoldable pub set_threshold : Pointer → ℕ → Cmd Perf ℤ
set_threshold null t m = ok einval m
set_threshold (err_ptr e) t m = fault
set_threshold (addr a) t m =
    (do x ← load_metric (addr a); store_metric a (record x { threshold = t }); pure success) m

unfoldable pub get_threshold : (out : Bool) → Pointer → Cmd Perf (ℤ × ℕ)
get_threshold out null m = ok (einval, 0) m
get_threshold false (addr a) m = ok (einval, 0) m
get_threshold true (addr a) m = (do x ← load_metric (addr a); pure (success, x.threshold)) m
get_threshold false (err_ptr e) m = ok (einval, 0) m
get_threshold true (err_ptr e) m = fault

-- The copy of the statistics that the caller gets, if any.
unfoldable pub get_stats : (out : Bool) → Cmd Perf (ℤ × Option Stats)
get_stats false m = ok (einval, none) m
get_stats true m = (do lock; s ← gets λ m. m.stats; unlock; pure (success, some s)) m

unfoldable pub reset_stats : Cmd Perf ℤ
reset_stats = do lock; modify λ m. record m { stats = zero_stats }; unlock; pure success

abbrev pub config_sampling_rate : ℕ
config_sampling_rate = 1000

abbrev pub idle_sampler : Sampler
idle_sampler = record {
  sampling_rate = config_sampling_rate;
  sampling_active = false;
  sampling_start = 0;
  sampling_end = 0;
}

unfoldable pub init : Option ℕ → Cmd (Contexts Sampler) ℤ
init kzalloc = install kzalloc idle_sampler

unfoldable pub create_context : Option ℕ → Cmd (Contexts Sampler) Pointer
create_context kzalloc = create kzalloc idle_sampler

abbrev pub begin_sampling : (now a : ℕ) → Cmd (Contexts Sampler) ℤ
begin_sampling now a = do
  update_body (λ b. record b { sampling_active = true; sampling_start = now }) (addr a)
  pure success

abbrev pub end_sampling : (now a : ℕ) → Cmd (Contexts Sampler) ℤ
end_sampling now a = do
  update_body (λ b. record b { sampling_active = false; sampling_end = now }) (addr a)
  pure success

unfoldable pub start_sampling : (now : ℕ) → Pointer → Cmd (Contexts Sampler) ℤ
start_sampling now null m = ok einval m
start_sampling now (err_ptr e) m = fault
start_sampling now (addr a) m =
    (do c ← load (addr a); if c.body.sampling_active then pure ebusy else begin_sampling now a) m

unfoldable pub stop_sampling : (now : ℕ) → Pointer → Cmd (Contexts Sampler) ℤ
stop_sampling now null m = ok einval m
stop_sampling now (err_ptr e) m = fault
stop_sampling now (addr a) m =
    (do c ← load (addr a); if c.body.sampling_active then end_sampling now a else pure einval) m

-- `ktime_sub`
abbrev pub ktime_sub : ℕ → ℕ → ℕ
ktime_sub t s = (t + 2 ^ 64 - s) % 2 ^ 64

unfoldable pub get_sampling_duration : (now : ℕ) → Pointer → Cmd (Contexts Sampler) (ℤ × Option ℕ)
get_sampling_duration now null m = ok (einval, none) m
get_sampling_duration now (err_ptr e) m = fault
get_sampling_duration now (addr a) m =
    (do
      c ← load (addr a)
      pure (
          if c.body.sampling_active
          then (success, some (ktime_sub now c.body.sampling_start))
          else (einval, none)))
      m

-- The three functions on the global context.
abbrev pub exit : Cmd (Contexts Sampler) (Unit {0})
exit = uninstall

abbrev pub get_context : Cmd (Contexts Sampler) Pointer
get_context = get

abbrev pub put_context : Pointer → Cmd (Contexts Sampler) (Unit {0})
put_context = put

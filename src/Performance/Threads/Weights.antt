-- ===== src/Performance/Threads/Weights.antt =====
-- What a thread in quantum_perf_update_metric counts for.
use ctrlxt_kernel.Base.{ℕ, ◌≤◌, arith, ◌==◌, if◌then◌else◌}
use ctrlxt_kernel.Performance.Threads.{
  Phase, outside, value_stored, waiting, inside, total_read, total_stored, dated, found_above,
  exceeded_read, leaving, one_if,
}

-- The thread has the lock.
abbrev pub in_section : Phase → ℕ
in_section outside = 0
in_section (value_stored a v) = 0
in_section (waiting a v) = 0
in_section (inside a v) = 1
in_section (total_read a v n) = 1
in_section (total_stored a v) = 1
in_section (dated a v) = 1
in_section found_above = 1
in_section (exceeded_read n) = 1
in_section (leaving b) = 1

-- The thread has read a counter that has another value since.
abbrev pub stale : (total_metrics threshold_exceeded : ℕ) → Phase → ℕ
stale t e outside = 0
stale t e (value_stored a v) = 0
stale t e (waiting a v) = 0
stale t e (inside a v) = 0
stale t e (total_read a v n) = if n == t then 0 else 1
stale t e (total_stored a v) = 0
stale t e (dated a v) = 0
stale t e found_above = 0
stale t e (exceeded_read n) = if n == e then 0 else 1
stale t e (leaving b) = 0

-- The thread has counted its report and not finished it.
abbrev pub ahead : Phase → ℕ
ahead outside = 0
ahead (value_stored a v) = 0
ahead (waiting a v) = 0
ahead (inside a v) = 0
ahead (total_read a v n) = 0
ahead (total_stored a v) = 1
ahead (dated a v) = 1
ahead found_above = 1
ahead (exceeded_read n) = 1
ahead (leaving b) = 1

abbrev pub ahead_above : Phase → ℕ
ahead_above outside = 0
ahead_above (value_stored a v) = 0
ahead_above (waiting a v) = 0
ahead_above (inside a v) = 0
ahead_above (total_read a v n) = 0
ahead_above (total_stored a v) = 0
ahead_above (dated a v) = 0
ahead_above found_above = 0
ahead_above (exceeded_read n) = 0
ahead_above (leaving b) = one_if b

pub stale-le : (t e : ℕ) (p : Phase) → stale t e p ≤ in_section p
stale-le t e outside = omega arith
stale-le t e (value_stored a v) = omega arith
stale-le t e (waiting a v) = omega arith
stale-le t e (inside a v) = omega arith
stale-le t e (total_read a v n) = ground arith
stale-le t e (total_stored a v) = omega arith
stale-le t e (dated a v) = omega arith
stale-le t e found_above = omega arith
stale-le t e (exceeded_read n) = ground arith
stale-le t e (leaving b) = omega arith

pub ahead-le : (p : Phase) → ahead p ≤ in_section p
ahead-le outside = omega arith
ahead-le (value_stored a v) = omega arith
ahead-le (waiting a v) = omega arith
ahead-le (inside a v) = omega arith
ahead-le (total_read a v n) = omega arith
ahead-le (total_stored a v) = omega arith
ahead-le (dated a v) = omega arith
ahead-le found_above = omega arith
ahead-le (exceeded_read n) = omega arith
ahead-le (leaving b) = omega arith

pub ahead_above-le : (p : Phase) → ahead_above p ≤ in_section p
ahead_above-le outside = omega arith
ahead_above-le (value_stored a v) = omega arith
ahead_above-le (waiting a v) = omega arith
ahead_above-le (inside a v) = omega arith
ahead_above-le (total_read a v n) = omega arith
ahead_above-le (total_stored a v) = omega arith
ahead_above-le (dated a v) = omega arith
ahead_above-le found_above = omega arith
ahead_above-le (exceeded_read n) = omega arith
ahead_above-le (leaving b) = ground arith

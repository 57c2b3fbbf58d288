-- ===== src/Kunit/Benchmark/Rounds.antt =====
-- The loop of a benchmark.
use ctrlxt_kernel.Base.{
  ℕ, ◌∙◌, zero, suc, ◌+◌, ◌-◌, ◌<◌, ◌≤◌, ◌/◌, ◌%◌, ◌^◌, ◌≡◌, refl, arith, Bool, [], ◌∷◌,
}
use ctrlxt_kernel.Kernel.Run.{Cmd, Returns, returns, Returns-then, Returns-mono}
use ctrlxt_kernel.Kunit.Benchmark.{
  Round, measure_operation_time, total_time, benchmark, benchmark_iterations,
}

-- The time between the two readings of the clock, summed over the rounds.
unfoldable pub elapsed : {A : Type 0} → (ℕ → Round A) → (n i : ℕ) → ℕ
elapsed rounds zero i = 0
elapsed rounds (suc n) i = (rounds i).end - (rounds i).start + elapsed rounds n (i + 1)

-- The clock does not run backwards, and its readings fit their type.
abbrev pub IsTimely : {A : Type 0} → (ℕ → Round A) → Type 0
IsTimely rounds = (i : ℕ) → ((rounds i).start ≤ (rounds i).end) × ((rounds i).end < 2 ^ 64)

-- What ktime_divns and the comparison do on times below 2 ^ 63.
abbrev pub Divides : (ℕ → ℕ → ℕ) → Type 0
Divides ktime_divns = (t n : ℕ) → t < 2 ^ 63 → ktime_divns t n ≡ t / n

module _ {S A : Type 0} (operation : A → Cmd S (Unit {0})) (rounds : ℕ → Round A)
    (I : ℕ → S → Type 0)
    (keeps : (i : ℕ) (m : S) → I i m → Returns (λ _. I (i + 1)) (operation (rounds i).told m))
    (timely : IsTimely rounds) where
  measure_operation_time-elapsed :
      (i : ℕ) (m : S)
      → I i m
      → Returns
          (λ t l. (t ≡ (rounds i).end - (rounds i).start) × I (i + 1) l)
          (measure_operation_time operation (rounds i) m)
  unfolding measure_operation_time
  measure_operation_time-elapsed i m v =
      let (order, small) = timely i in Returns-then (keeps i m v) λ _ l w. returns (omega arith, w)

  -- What each operation keeps, the loop keeps, and its time is the sum.
  total_time-elapsed :
      (n i j time : ℕ) (m : S)
      → i + n ≡ j
      → time + elapsed rounds n i < 2 ^ 64
      → I i m
      → Returns
          (λ t l. (t ≡ time + elapsed rounds n i) × I j l)
          (total_time operation rounds n i time m)
  unfolding total_time elapsed
  total_time-elapsed zero i j time m e fits v =
      let at_end : i ≡ j = omega arith in returns (omega arith, rw (← at_end) v)
  total_time-elapsed (suc n) i j time m e fits v =
      Returns-then (measure_operation_time-elapsed i m v) λ t l (took, w).
        let sum : (time + t) % 2 ^ 64 ≡ time + ((rounds i).end - (rounds i).start) = omega arith in
        rw sum (
          Returns-mono (total_time-elapsed n (i + 1) j _ l (omega arith) (omega arith) w)
            λ _ _ (f, u). (f ∙ omega arith, u))

  -- A benchmark whose operation keeps an invariant ends without a fault, and its one expectation is
  -- that the sum of the times, over the number of rounds, is below the bound.
  pub benchmark-elapsed :
      (ktime_divns : ℕ → ℕ → ℕ) (less : ℕ → ℕ → Bool) (bound : ℕ) (m : S)
      → Divides ktime_divns
      → elapsed rounds benchmark_iterations 0 < 2 ^ 63
      → I 0 m
      → Returns
          (λ es l.
            (es ≡ less (elapsed rounds benchmark_iterations 0 / benchmark_iterations) bound ∷ [])
            × I benchmark_iterations l)
          (benchmark operation ktime_divns less bound rounds m)
  unfolding benchmark
  benchmark-elapsed divns less bound m divides fits v =
      let sum = elapsed rounds benchmark_iterations 0 in
      Returns-then
        (total_time-elapsed benchmark_iterations 0 benchmark_iterations 0 m (omega arith)
          (omega arith) v)
        λ t l (e, w).
          let e' : t ≡ sum = e ∙ omega arith in
          rw (e', divides sum benchmark_iterations fits) (returns (refl, w))

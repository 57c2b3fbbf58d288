-- ===== src/Kunit/Concurrent/Metrics.antt =====
-- The three loops of test_concurrent_operations on their metrics.
use ctrlxt_kernel.Base.{
  ℕ, ◌+◌, ◌≡◌, refl, fun_ext, Bool, true, false, Option, none, some, List, [], ◌∷◌, arith, has,
  Distinct, eqb_refl, ◌==◌,
}
use ctrlxt_kernel.Kernel.Pointer.{Pointer, addr}
use ctrlxt_kernel.Kernel.Run.{ok, Heap, write, write-read, write-write, write_self}
use ctrlxt_kernel.Performance.{
  Metric, Perf, Stats, metric_cpu, threshold_normal, create_metric, update_metric, counted,
  load_metric,
}
use ctrlxt_kernel.Kunit.Concurrent.{Told, create_metrics, update_metrics, free_metrics}

-- The metrics of the test with their addresses, in the order in which they were made.
abbrev pub put_all : Heap Metric → List (ℕ × Metric) → Heap Metric
put_all h [] = h
put_all h ((a, x) ∷ ps) = put_all (write h a (some x)) ps

abbrev pub addresses : List (ℕ × Metric) → List ℕ
addresses [] = []
addresses ((a, x) ∷ ps) = a ∷ addresses ps

write-swap :
    (h : Heap Metric) (a b : ℕ) (c d : Option Metric)
    → (a == b) ≡ false
    → write (write h a c) b d ≡ write (write h b d) a c
unfolding write
write-swap h a b c d ne = fun_ext λ x. ground arith

put_all-read :
    (h : Heap Metric) (a : ℕ) (x : Metric) (ps : List (ℕ × Metric))
    → has a (addresses ps) ≡ false
    → put_all (write h a (some x)) ps a ≡ some x
put_all-read h a x [] d = write-read h a (some x)
put_all-read h a x ((b, y) ∷ ps) d =
    let ne : (a == b) ≡ false = ground arith in
    rw (write-swap h a b (some x) (some y) ne)
      (put_all-read (write h b (some y)) a x ps (ground arith))

write-put_all :
    (h : Heap Metric) (a : ℕ) (c d : Option Metric) (ps : List (ℕ × Metric))
    → has a (addresses ps) ≡ false
    → write (put_all (write h a c) ps) a d ≡ put_all (write h a d) ps
write-put_all h a c d [] e = write-write h a c d
write-put_all h a c d ((b, y) ∷ ps) e =
    let ne : (a == b) ≡ false = ground arith in
    rw (write-swap h a b c (some y) ne, write-swap h a b d (some y) ne)
      (write-put_all (write h b (some y)) a c d ps (ground arith))

-- The monitor between two calls.
abbrev pub resting : Heap Metric → Stats → Perf
resting h s = record { metrics = h; stats = s; locked = false }

abbrev pub pointers : List (ℕ × Metric) → List Pointer
pointers [] = []
pointers ((a, x) ∷ ps) = addr a ∷ pointers ps

abbrev pub made : List Told → List ℕ → List (ℕ × Metric)
made [] places = []
made (t ∷ ts) [] = []
made (t ∷ ts) (a ∷ places) =
    (
      a,
      record {
        metric_type = metric_cpu;
        value = 0;
        threshold = threshold_normal;
        timestamp = t.made_at;
      },
    )
    ∷ made ts places

-- kzalloc returns these addresses.
abbrev pub Gives : List Told → List ℕ → Type 0
Gives [] [] = Unit {0}
Gives [] (a ∷ places) = ⊥
Gives (t ∷ ts) [] = ⊥
Gives (t ∷ ts) (a ∷ places) = (t.kzalloc ≡ some a) × Gives ts places

pub create_metrics-made :
    (ts : List Told) (places : List ℕ) (h : Heap Metric) (s : Stats)
    → Gives ts places
    → create_metrics ts (resting h s)
      ≡ ok (some (pointers (made ts places))) (resting (put_all h (made ts places)) s)
unfolding create_metrics create_metric
create_metrics-made [] [] h s g = refl
create_metrics-made [] (a ∷ places) h s g = absurd g
create_metrics-made (t ∷ ts) [] h s g = absurd g
create_metrics-made (t ∷ ts) (a ∷ places) h s (e, g) =
    rw (e, create_metrics-made ts places _ s g) refl

-- A metric for each round, with the first threshold.
abbrev pub Fitting : List Told → List (ℕ × Metric) → Type 0
Fitting [] [] = Unit {0}
Fitting [] (p ∷ ps) = ⊥
Fitting (t ∷ ts) [] = ⊥
Fitting (t ∷ ts) ((a, x) ∷ ps) = (x.threshold ≡ threshold_normal) × Fitting ts ps

abbrev pub updated : ℕ → List Told → List (ℕ × Metric) → List (ℕ × Metric)
updated i [] ps = ps
updated i (t ∷ ts) [] = []
updated i (t ∷ ts) ((a, x) ∷ ps) =
    (a, record x { value = 75 + i; timestamp = t.now }) ∷ updated (i + 1) ts ps

abbrev pub trues : List Told → List Bool
trues [] = []
trues (t ∷ ts) = true ∷ trues ts

module _ (width : ℕ) where
  abbrev pub tally : ℕ → List Told → Stats → Stats
  tally i [] s = s
  tally i (t ∷ ts) s = tally (i + 1) ts (counted width t.later (75 + i) threshold_normal s)

  pub update_metrics-updated :
      (i : ℕ) (ts : List Told) (ps : List (ℕ × Metric)) (h : Heap Metric) (s : Stats)
      → Fitting ts ps
      → Distinct (addresses ps)
      → update_metrics width i ts (pointers ps) (resting (put_all h ps) s)
        ≡ ok (trues ts) (resting (put_all h (updated i ts ps)) (tally i ts s))
  unfolding update_metrics update_metric
  update_metrics-updated i [] [] h s f d = refl
  update_metrics-updated i [] (p ∷ ps) h s f d = absurd f
  update_metrics-updated i (t ∷ ts) [] h s f d = absurd f
  update_metrics-updated i (t ∷ ts) ((a, x) ∷ ps) h s (e, f) (new, d) =
      let y = record x { value = 75 + i; timestamp = t.now } in
      rw
        (
          load_metric,
          put_all-read h a x ps new,
          write-put_all h a (some x) (some y) ps new,
          update_metrics-updated (i + 1) ts ps (write h a (some y))
              (counted width t.later (75 + i) x.threshold s) f d,
        )
        (rw e refl)

pub free_metrics-freed :
    (ps : List (ℕ × Metric)) (h : Heap Metric) (s : Stats)
    → Distinct (addresses ps)
    → ((a : ℕ) → has a (addresses ps) ≡ true → h a ≡ none)
    → free_metrics (pointers ps) (resting (put_all h ps) s) ≡ ok tt (resting h s)
unfolding free_metrics
free_metrics-freed [] h s d unused = refl
free_metrics-freed ((a, x) ∷ ps) h s (new, d) unused =
    rw
      (
        load_metric,
        put_all-read h a x ps new,
        write-put_all h a (some x) none ps new,
        write_self h a none (unused a (ground (arith, eqb_refl a))),
        free_metrics-freed ps h s d (λ b g. unused b (ground arith)),
      )
      refl

-- ===== src/Device/Open/Exclusive.antt =====
-- Mutual exclusion of quantum_open: the invariant of the interleavings and what follows from it.
use ctrlxt_kernel.Base.{
  ℕ, ◌+◌, ◌≤◌, ◌<◌, ◌^◌, ◌≡◌, refl, false, some, List, [], ◌∷◌, arith, ◌==◌, length, get_elem?, set,
  total, length-set, total-set, get_elem?-set_ne, ◌⊎◌, ◌∙◌, inl, inr, Bool-cases, eqb→eq, zero, suc,
}
use ctrlxt_kernel.Kernel.Errno.{success}
use ctrlxt_kernel.Device.Open.{
  Phase, outside, turned_away, holding, enter, leave, open_device, System, At, entered, left, Step,
  enters, backs_off, releases, Reach, here, next, busy, holds, all_outside, initial,
}

record IsCounted (s : System) : Type 0 where
  few : length s.threads < 2 ^ 31
  counted : s.open_count ≡ total busy s.threads
  single : total holds s.threads ≤ 1

total-busy-le : (xs : List Phase) → total busy xs ≤ length xs
total-busy-le [] = omega arith
total-busy-le (outside ∷ xs) = omega (arith, total-busy-le xs)
total-busy-le (turned_away ∷ xs) = omega (arith, total-busy-le xs)
total-busy-le (holding ∷ xs) = omega (arith, total-busy-le xs)

total-holds-le : (xs : List Phase) → total holds xs ≤ total busy xs
total-holds-le [] = omega arith
total-holds-le (outside ∷ xs) = omega (arith, total-holds-le xs)
total-holds-le (turned_away ∷ xs) = omega (arith, total-holds-le xs)
total-holds-le (holding ∷ xs) = omega (arith, total-holds-le xs)

busy-enter : (count : ℕ) → busy (enter count).1 ≡ 1
unfolding enter
busy-enter count = ground arith

enter-count : (count : ℕ) → count + 1 < 2 ^ 31 → (enter count).0 ≡ count + 1
unfolding enter
enter-count count h = omega arith

holds-enter :
    (count : ℕ)
    → count + 1 < 2 ^ 31
    → holds (enter count).1 + count ≤ 1 ⊎ (holds (enter count).1 ≡ 0)
unfolding enter
holds-enter count h = ground arith

enters-IsCounted : (s : System) (i : ℕ) → At s i outside → IsCounted s → IsCounted (entered s i)
enters-IsCounted s i e v =
    let p = (enter s.open_count).1 in
    let b = total-set busy s.threads i outside p e in
    let h = total-set holds s.threads i outside p e in
    let n = length-set s.threads i p in
    let le = total-busy-le (set s.threads i p) in
    let room : s.open_count + 1 < 2 ^ 31 =
      omega (arith, b, busy-enter s.open_count, n, le, v.few, v.counted) in
    record {
      few = omega (arith, n, v.few);
      counted = omega (arith, b, busy-enter s.open_count, enter-count s.open_count room, v.counted);
      single =
          omega (
            arith,
            h,
            holds-enter s.open_count room,
            v.single,
            v.counted,
            total-holds-le s.threads,
          );
    }

left-IsCounted :
    (s : System) (i : ℕ) (p : Phase) → At s i p → busy p ≡ 1 → IsCounted s → IsCounted (left s i)
unfolding leave
left-IsCounted s i p e one v = record {
  few = omega (arith, length-set s.threads i outside, v.few);
  counted =
      omega
        (arith, total-set busy s.threads i p outside e, v.few, v.counted, total-busy-le s.threads);
  single = omega (arith, total-set holds s.threads i p outside e, v.single);
}

Step-IsCounted : {s t : System} → Step s t → IsCounted s → IsCounted t
Step-IsCounted (enters s i e) v = enters-IsCounted s i e v
Step-IsCounted (backs_off s i e) v = left-IsCounted s i turned_away e refl v
Step-IsCounted (releases s i e) v = left-IsCounted s i holding e refl v

Reach-IsCounted : {s t : System} → IsCounted s → Reach s t → IsCounted t
Reach-IsCounted v here = v
Reach-IsCounted v (next r st) = Step-IsCounted st (Reach-IsCounted v r)

initial-IsCounted : (n : ℕ) → n < 2 ^ 31 → IsCounted (initial n)
initial-IsCounted n h = record {
  few = omega (arith, length-all_outside n);
  counted = omega (arith, total-all_outside n);
  single = omega (arith, total-all_outside n, total-holds-le (all_outside n));
}
  where
    length-all_outside : (n : ℕ) → length (all_outside n) ≡ n
    length-all_outside zero = refl
    length-all_outside (suc n) = omega (arith, length-all_outside n)

    total-all_outside : (n : ℕ) → total busy (all_outside n) ≡ 0
    total-all_outside zero = refl
    total-all_outside (suc n) = omega (arith, total-all_outside n)

two_holders :
    (xs : List Phase) (i j : ℕ)
    → (i == j) ≡ false
    → get_elem? xs i ≡ some holding
    → get_elem? xs j ≡ some holding
    → 1 < total holds xs
two_holders xs i j ne hi hj = omega (
  arith,
  total-set holds xs i holding outside hi,
  total-set holds (set xs i outside) j holding outside (get_elem?-set_ne xs i j outside ne ∙ hj),
)

-- Of fewer than 2 ^ 31 threads at most one has the device open, whatever the interleaving of their
-- opens and releases.
pub Reach-exclusive :
    (n i j : ℕ) (s : System)
    → n < 2 ^ 31
    → Reach (initial n) s
    → At s i holding
    → At s j holding
    → i ≡ j
Reach-exclusive n i j s small r hi hj = elim (Bool-cases (i == j)) [
  | inl same ↦ eqb→eq i j same
  | inr ne ↦ absurd (
      omega (
        arith,
        (Reach-IsCounted (initial-IsCounted n small) r).single,
        two_holders s.threads i j ne hi hj,
      ))
]

-- With fewer than 2 ^ 31 threads, once all have left, a thread that opens the device gets it.
pub Reach-reopen :
    (n : ℕ) (s : System)
    → n < 2 ^ 31
    → Reach (initial n) s
    → total busy s.threads ≡ 0
    → open_device s.open_count ≡ (1, success)
unfolding open_device
Reach-reopen n s small r none_left =
    let zero_count : s.open_count ≡ 0 =
      omega (arith, (Reach-IsCounted (initial-IsCounted n small) r).counted) in
    rw zero_count refl

-- ===== src/Base/Lists.antt =====
-- Lists over the native numbers: length, membership of an address, removal of an address.
use Prim.Native.Nat.{ℕ, ◌≤◌, zero, suc, ◌+◌}
use mathlib.Core.Path.{◌≡◌, refl, ap}
use mathlib.Core.Bool.{Bool, false, ◌||◌}
use mathlib.Core.Option.{Option, none, some}
use mathlib.Core.List.{List, [], ◌∷◌, ◌++◌}
use native.Mathlib.Omega.{arith}
use ctrlxt_kernel.Base.Tests.{◌==◌, if◌then◌else◌}

module _ {ℓ} {A : Type ℓ} where
  abbrev pub length : List A → ℕ
  length [] = 0
  length (x ∷ xs) = suc (length xs)

abbrev pub has : ℕ → List ℕ → Bool
has a [] = false
has a (x ∷ xs) = (a == x) || has a xs

-- Removes the first occurrence.
abbrev pub erase : ℕ → List ℕ → List ℕ
erase a [] = []
erase a (x ∷ xs) = if a == x then xs else x ∷ erase a xs

abbrev pub Distinct : List ℕ → Type 0
Distinct [] = Unit {0}
Distinct (x ∷ xs) = (has x xs ≡ false) × Distinct xs

pub has-erase_ne : (a b : ℕ) (xs : List ℕ) → (a == b) ≡ false → has a (erase b xs) ≡ has a xs
has-erase_ne a b [] h = refl
has-erase_ne a b (x ∷ xs) h = ground (arith, has-erase_ne a b xs)

pub has-erase_self : (a : ℕ) (xs : List ℕ) → Distinct xs → has a (erase a xs) ≡ false
has-erase_self a [] d = refl
has-erase_self a (x ∷ xs) d = ground (arith, has-erase_self a xs)

has-erase_of_not : (a b : ℕ) (xs : List ℕ) → has a xs ≡ false → has a (erase b xs) ≡ false
has-erase_of_not a b [] h = refl
has-erase_of_not a b (x ∷ xs) h = ground (arith, has-erase_of_not a b xs)

pub erase_of_not : (a : ℕ) (xs : List ℕ) → has a xs ≡ false → erase a xs ≡ xs
erase_of_not a [] h = refl
erase_of_not a (x ∷ xs) h = ground (arith, erase_of_not a xs)

pub erase-Distinct : (a : ℕ) (xs : List ℕ) → Distinct xs → Distinct (erase a xs)
erase-Distinct a [] d = tt
erase-Distinct a (x ∷ xs) d = ground (arith, erase-Distinct a xs d.1, has-erase_of_not x a xs d.0)

-- Adds what a pointer shows, if it is not NULL.
abbrev pub cons_opt {ℓ} : {A : Type ℓ} → Option A → List A → List A
cons_opt none xs = xs
cons_opt (some x) xs = x ∷ xs

module _ {ℓ} {A : Type ℓ} where
  abbrev pub get_elem? : List A → ℕ → Option A
  get_elem? [] i = none
  get_elem? (x ∷ xs) zero = some x
  get_elem? (x ∷ xs) (suc i) = get_elem? xs i

  -- A write out of bounds changes nothing.
  abbrev pub set : List A → ℕ → A → List A
  set [] i v = []
  set (x ∷ xs) zero v = v ∷ xs
  set (x ∷ xs) (suc i) v = x ∷ set xs i v

  pub length-set : (xs : List A) (i : ℕ) (v : A) → length (set xs i v) ≡ length xs
  length-set [] i v = refl
  length-set (x ∷ xs) zero v = refl
  length-set (x ∷ xs) (suc i) v = omega (arith, length-set xs i v)

  abbrev pub total : (A → ℕ) → List A → ℕ
  total w [] = 0
  total w (x ∷ xs) = w x + total w xs

  -- A write moves a sum by the difference of the two values.
  pub total-set :
      (w : A → ℕ) (xs : List A) (i : ℕ) (old new : A)
      → get_elem? xs i ≡ some old
      → total w (set xs i new) + w old ≡ total w xs + w new
  total-set w [] i old new e = ground arith
  total-set w (x ∷ xs) zero old new e = let e' : w x ≡ w old = cc in omega arith
  total-set w (x ∷ xs) (suc i) old new e = omega (arith, total-set w xs i old new e)

  -- Two weights, the first no more than the second, and one place.
  pub total-le : (f g : A → ℕ) → ((x : A) → f x ≤ g x) → (xs : List A) → total f xs ≤ total g xs
  total-le f g le [] = omega arith
  total-le f g le (x ∷ xs) = omega (arith, le x, total-le f g le xs)

  pub total-le_at :
      (f g : A → ℕ)
      → ((x : A) → f x ≤ g x)
      → (xs : List A) (i : ℕ) (p : A) → get_elem? xs i ≡ some p
      → total f xs + g p ≤ total g xs + f p
  total-le_at f g le [] i p e = absurd cc
  total-le_at f g le (x ∷ xs) zero p e =
      let d : f x ≡ f p = cc in let d' : g x ≡ g p = cc in omega (arith, total-le f g le xs)
  total-le_at f g le (x ∷ xs) (suc i) p e = omega (arith, le x, total-le_at f g le xs i p e)

  pub get_elem?-set_self :
      (xs : List A) (i : ℕ) (old new : A)
      → get_elem? xs i ≡ some old
      → get_elem? (set xs i new) i ≡ some new
  get_elem?-set_self [] i old new e = absurd cc
  get_elem?-set_self (x ∷ xs) zero old new e = refl
  get_elem?-set_self (x ∷ xs) (suc i) old new e = get_elem?-set_self xs i old new e

  pub get_elem?-set_ne :
      (xs : List A) (i j : ℕ) (v : A) → (i == j) ≡ false → get_elem? (set xs i v) j ≡ get_elem? xs j
  get_elem?-set_ne [] i j v h = refl
  get_elem?-set_ne (x ∷ xs) zero zero v h = ground arith
  get_elem?-set_ne (x ∷ xs) zero (suc j) v h = refl
  get_elem?-set_ne (x ∷ xs) (suc i) zero v h = refl
  get_elem?-set_ne (x ∷ xs) (suc i) (suc j) v h = get_elem?-set_ne xs i j v (ground arith)

module _ {ℓ} {A : Type ℓ} where
  abbrev pub take : ℕ → List A → List A
  take zero xs = []
  take (suc n) [] = []
  take (suc n) (x ∷ xs) = x ∷ take n xs

  abbrev pub drop : ℕ → List A → List A
  drop zero xs = xs
  drop (suc n) [] = []
  drop (suc n) (x ∷ xs) = drop n xs

  pub length-append : (xs ys : List A) → length (xs ++ ys) ≡ length xs + length ys
  length-append [] ys = omega arith
  length-append (x ∷ xs) ys = omega (arith, length-append xs ys)

  pub length-take-drop : (n : ℕ) (xs : List A) → length (take n xs) + length (drop n xs) ≡ length xs
  length-take-drop zero xs = omega arith
  length-take-drop (suc n) [] = omega arith
  length-take-drop (suc n) (x ∷ xs) = omega (arith, length-take-drop n xs)

  pub length-take : (n : ℕ) (xs : List A) → n ≤ length xs → length (take n xs) ≡ n
  length-take zero xs h = refl
  length-take (suc n) [] h = absurd (omega arith)
  length-take (suc n) (x ∷ xs) h = omega (arith, length-take n xs)

  pub take-append : (xs ys : List A) → take (length xs) (xs ++ ys) ≡ xs
  take-append [] ys = refl
  take-append (x ∷ xs) ys = ap (◌∷◌ x) (take-append xs ys)

  pub drop-append : (xs ys : List A) → drop (length xs) (xs ++ ys) ≡ ys
  drop-append [] ys = refl
  drop-append (x ∷ xs) ys = drop-append xs ys

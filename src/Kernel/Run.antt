-- ===== src/Kernel/Run.antt =====
-- Stateful code that may fault: a read or write through a pointer to no object, a division by
-- zero, or a lock taken twice.

use ctrlxt_kernel.Base.{
  refl, fun_ext, subst, ◌≡◌, Bool, true, false, arith, ℕ, Option, ◌==◌, if◌then◌else◌,
}

pub data Run (S A : Type 0) : Type 0 where
  ok : A → S → Run S A
  fault : Run S A

pub result_of : {S A : Type 0} {x y : A} {s t : S} → ok x s ≡ ok y t → x ≡ y
result_of h = cc

pub state_of : {S A : Type 0} {x y : A} {s t : S} → ok x s ≡ ok y t → s ≡ t
state_of h = cc

abbrev pub Cmd : Type 0 → Type 0 → Type 0
Cmd S A = S → Run S A

abbrev pub pure : {S A : Type 0} → A → Cmd S A
pure = ok

module _ {S A B : Type 0} where
  abbrev pub and_then : Run S A → (A → Cmd S B) → Run S B
  and_then (ok a s) k = k a s
  and_then fault k = fault

  infixl 5 ◌>>=◌ ◌>>◌
  abbrev pub ◌>>=◌ : Cmd S A → (A → Cmd S B) → Cmd S B
  m >>= k = λ s. and_then (m s) k

  abbrev pub ◌>>◌ : Cmd S A → Cmd S B → Cmd S B
  m >> n = m >>= λ _. n

module _ {S : Type 0} where
  -- A state update with no result.
  abbrev pub modify : (S → S) → Cmd S (Unit {0})
  modify f s = ok tt (f s)

  -- A read of the state.
  abbrev pub gets : {A : Type 0} → (S → A) → Cmd S A
  gets f s = ok (f s) s

-- Objects of one type at their addresses; `none` where no object is allocated.
abbrev pub Heap : Type 0 → Type 0
Heap A = ℕ → Option A

unfoldable pub write : {A : Type 0} → Heap A → ℕ → Option A → Heap A
write h a c x = if x == a then c else h x

-- A command that ends without a fault, and what holds of its result and final state.
pub data Returns {S A : Type 0} (P : A → S → Type 0) : Run S A → Type 0 where
  returns : {a : A} {s : S} → P a s → Returns P (ok a s)

-- Two writes to one address are the second one.
pub write-write :
    {A : Type 0} (h : Heap A) (a : ℕ) (c d : Option A) → write (write h a c) a d ≡ write h a d
unfolding write
write-write h a c d = fun_ext λ x. ground arith

pub write_self : {A : Type 0} (h : Heap A) (a : ℕ) (c : Option A) → h a ≡ c → write h a c ≡ h
unfolding write
write_self h a c e = fun_ext λ x. ground arith

pub write-read : {A : Type 0} (h : Heap A) (a : ℕ) (c : Option A) → write h a c a ≡ c
unfolding write
write-read h a c = ground arith

-- A command behind one that returns.
pub Returns-then :
    {S A B : Type 0} {P : A → S → Type 0} {Q : B → S → Type 0} {r : Run S A} {k : A → Cmd S B}
    → Returns P r
    → ((a : A) (s : S) → P a s → Returns Q (k a s))
    → Returns Q (and_then r k)
Returns-then (returns p) next = next _ _ p

pub Returns-mono :
    {S A : Type 0} {P Q : A → S → Type 0} {r : Run S A}
    → Returns P r
    → ((a : A) (s : S) → P a s → Q a s)
    → Returns Q r
Returns-mono (returns p) weaken = returns (weaken _ _ p)

-- What holds of the result and the state of a run that is known.
abbrev Holds : {S A : Type 0} → (A → S → Type 0) → Run S A → Type 0
Holds P (ok a s) = P a s
Holds P fault = ⊥

Holds-of_Returns : {S A : Type 0} {P : A → S → Type 0} {r : Run S A} → Returns P r → Holds P r
Holds-of_Returns (returns p) = p

pub Returns-ok :
    {S A : Type 0} {P : A → S → Type 0} {r : Run S A} {a : A} {s : S}
    → Returns P r
    → r ≡ ok a s
    → P a s
Returns-ok {P} v e = subst (Holds P) e (Holds-of_Returns v)

-- Two facts on one run, and one fact for each index.
pub Returns-both :
    {S A : Type 0} {P Q : A → S → Type 0} {r : Run S A}
    → Returns P r
    → Returns Q r
    → Returns (λ a s. P a s × Q a s) r
Returns-both (returns p) q = returns (p, Returns-ok q refl)

pub Returns-all :
    {S A I : Type 0} {P : I → A → S → Type 0} {r : Run S A}
    → I
    → ((i : I) → Returns (P i) r)
    → Returns (λ a s. (i : I) → P i a s) r
Returns-all {r = ok a s} i h = returns (λ j. Returns-ok (h j) refl)
Returns-all {r = fault} i h = absurd (Holds-of_Returns (h i))

-- What holds of the result and the final state of a command that may fault, where it does not.
pub data Ends {S A : Type 0} (P : A → S → Type 0) : Run S A → Type 0 where
  ended : {a : A} {s : S} → P a s → Ends P (ok a s)
  faulted : Ends P fault

pub Ends-then :
    {S A B : Type 0} {P : A → S → Type 0} {Q : B → S → Type 0} {r : Run S A} {k : A → Cmd S B}
    → Ends P r
    → ((a : A) (s : S) → P a s → Ends Q (k a s))
    → Ends Q (and_then r k)
Ends-then (ended p) next = next _ _ p
Ends-then faulted next = faulted

-- The two branches of a test.
pub Ends-if :
    {S A : Type 0} {P : A → S → Type 0} {x y : Run S A} (b : Bool)
    → Ends P x
    → Ends P y
    → Ends P (if b then x else y)
Ends-if true p q = p
Ends-if false p q = q

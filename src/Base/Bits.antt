-- ===== src/Base/Bits.antt =====
-- The digits of `&` and `|`, and tests of one mask within a union of two.
use Prim.Native.Nat.{
  ℕ, zero, suc, ◌+◌, ◌*◌, ◌/◌, ◌%◌, ◌≤◌, min, max, bit_and, bit_or, digits, bit_and-bitwise,
  bit_or-bitwise,
}
use mathlib.Core.Path.{◌≡◌, refl, sym}
use native.Mathlib.Omega.{arith}

-- The count of digits to go does not matter from the first number on.
digits-count :
    (z : ℕ → ℕ) (f : ℕ → ℕ → ℕ) (n m a b : ℕ) → a ≤ n → a ≤ m → digits z f n a b ≡ digits z f m a b
digits-count z f zero zero a b p q = refl
digits-count z f zero (suc m) zero b p q = refl
digits-count z f zero (suc m) (suc a) b p q = absurd (omega arith)
digits-count z f (suc n) zero zero b p q = refl
digits-count z f (suc n) zero (suc a) b p q = absurd (omega arith)
digits-count z f (suc n) (suc m) zero b p q = refl
digits-count z f (suc n) (suc m) (suc a) b p q =
    rw (digits-count z f n m (suc a / 2) (b / 2) (omega arith) (omega arith)) refl

pub bit_and-halves : (a b : ℕ) → bit_and a b ≡ bit_and (a / 2) (b / 2) * 2 + min (a % 2) (b % 2)
bit_and-halves zero b = omega (arith, bit_and-bitwise 0 b, bit_and-bitwise 0 (b / 2))
bit_and-halves (suc a) b =
    let h = suc a / 2 in
    omega (
      arith,
      bit_and-bitwise (suc a) b,
      bit_and-bitwise h (b / 2),
      digits-count (λ b. zero) min a h h (b / 2) (omega arith) (omega arith),
    )

pub bit_or-halves : (a b : ℕ) → bit_or a b ≡ bit_or (a / 2) (b / 2) * 2 + max (a % 2) (b % 2)
bit_or-halves zero b = omega (arith, bit_or-bitwise 0 b, bit_or-bitwise 0 (b / 2))
bit_or-halves (suc a) b =
    let h = suc a / 2 in
    omega (
      arith,
      bit_or-bitwise (suc a) b,
      bit_or-bitwise h (b / 2),
      digits-count (λ b. b) max a h h (b / 2) (omega arith) (omega arith),
    )

bit_and_self_count : (n a : ℕ) → a ≤ n → bit_and a a ≡ a
bit_and_self_count n zero le = omega (arith, bit_and-bitwise 0 0)
bit_and_self_count zero (suc a) le = absurd (omega arith)
bit_and_self_count (suc n) (suc a) le =
    omega (arith, bit_and-halves (suc a) (suc a), bit_and_self_count n (suc a / 2) (omega arith))

pub bit_and_self : (a : ℕ) → bit_and a a ≡ a
bit_and_self a = bit_and_self_count a a (omega arith)

-- The half of a union is the union of the halves.
bit_or-half : (x y : ℕ) → bit_or x y / 2 ≡ bit_or (x / 2) (y / 2)
bit_or-half x y = omega (arith, bit_or-halves x y)

-- Flags with every digit of `x | y` have those of the halves.
all_halves :
    (f x y : ℕ)
    → bit_and f (bit_or x y) ≡ bit_or x y
    → bit_and (f / 2) (bit_or (x / 2) (y / 2)) ≡ bit_or (x / 2) (y / 2)
all_halves f x y all =
    let e = bit_and-halves f (bit_or x y) in rw (sym (bit_or-half x y)) (omega arith)

bit_and_zero_count : (n f : ℕ) → f ≤ n → bit_and f 0 ≡ 0
bit_and_zero_count n zero le = omega (arith, bit_and-bitwise 0 0)
bit_and_zero_count zero (suc f) le = absurd (omega arith)
bit_and_zero_count (suc n) (suc f) le =
    omega (arith, bit_and-halves (suc f) 0, bit_and_zero_count n (suc f / 2) (omega arith))

-- Flags with every digit of `x | y` have every digit of `x`, and of `y`.
left_covered_count : (n f x y : ℕ) → x ≤ n → bit_and f (bit_or x y) ≡ bit_or x y → bit_and f x ≡ x
left_covered_count n f zero y le all = bit_and_zero_count f f (omega arith)
left_covered_count zero f (suc x) y le all = absurd (omega arith)
left_covered_count (suc n) f (suc x) y le all =
    let h = suc x / 2 in
    let e = bit_and-halves f (bit_or (suc x) y) in
    let o = bit_or-halves (suc x) y in
    let l = bit_and-halves f (suc x) in
    let rest = left_covered_count n (f / 2) h (y / 2) (omega arith) (all_halves f (suc x) y all) in
    omega arith

right_covered_count : (n f x y : ℕ) → y ≤ n → bit_and f (bit_or x y) ≡ bit_or x y → bit_and f y ≡ y
right_covered_count n f x zero le all = bit_and_zero_count f f (omega arith)
right_covered_count zero f x (suc y) le all = absurd (omega arith)
right_covered_count (suc n) f x (suc y) le all =
    let h = suc y / 2 in
    let e = bit_and-halves f (bit_or x (suc y)) in
    let o = bit_or-halves x (suc y) in
    let l = bit_and-halves f (suc y) in
    let rest = right_covered_count n (f / 2) (x / 2) h (omega arith) (all_halves f x (suc y) all) in
    omega arith

pub left_covered : (f x y : ℕ) → bit_and f (bit_or x y) ≡ bit_or x y → bit_and f x ≡ x
left_covered f x y = left_covered_count x f x y (omega arith)

pub right_covered : (f x y : ℕ) → bit_and f (bit_or x y) ≡ bit_or x y → bit_and f y ≡ y
right_covered f x y = right_covered_count y f x y (omega arith)

-- A mask of a union is empty where the flags that cover the union have no digit of it.
pub left_of_union : (f x y : ℕ) → bit_and f (bit_or x y) ≡ bit_or x y → bit_and f x ≡ 0 → x ≡ 0
left_of_union f x y all none_of = omega (arith, left_covered f x y all)

pub right_of_union : (f x y : ℕ) → bit_and f (bit_or x y) ≡ bit_or x y → bit_and f y ≡ 0 → y ≡ 0
right_of_union f x y all none_of = omega (arith, right_covered f x y all)

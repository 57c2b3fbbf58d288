-- ===== src/Base/Int.antt =====
-- Signed integers over the native numbers: the values of a C `int` that is a return code.
use Prim.Native.Nat.{ℕ}
use mathlib.Core.Path.{◌≡◌, refl}
use mathlib.Core.Bool.{Bool, true, false}

-- `negsuc n` is -(n + 1).
pub data ℤ : Type 0 where
  pos : ℕ → ℤ
  negsuc : ℕ → ℤ

-- `ret < 0`
abbrev pub is_neg : ℤ → Bool
is_neg (pos n) = false
is_neg (negsuc n) = true

-- `ret == 0`
abbrev pub is_zero : ℤ → Bool
is_zero (pos ℕ.zero) = true
is_zero (pos (ℕ.suc n)) = false
is_zero (negsuc n) = false

pub not-is_zero_of_neg : (z : ℤ) → is_neg z ≡ true → is_zero z ≡ false
not-is_zero_of_neg (pos n) h = cc
not-is_zero_of_neg (negsuc n) h = refl

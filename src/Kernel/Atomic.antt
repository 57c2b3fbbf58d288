-- ===== src/Kernel/Atomic.antt =====
-- `atomic_t` and C integer conversions. A 32-bit `int` is kept as its bit pattern, below 2 ^ 32.
use ctrlxt_kernel.Base.{ℕ, ◌+◌, ◌-◌, ◌%◌, ◌/◌, ◌^◌, ltb, if◌then◌else◌}

-- `int` to `unsigned long`: the sign is extended.
abbrev pub to_ulong : ℕ → ℕ
to_ulong w = if ltb w (2 ^ 31) then w else w + (2 ^ 64 - 2 ^ 32)

-- `unsigned long` to `int`: the low 32 bits.
abbrev pub to_int : ℕ → ℕ
to_int x = x % 2 ^ 32

abbrev pub atomic_add : ℕ → ℕ → ℕ
atomic_add n a = (a + n % 2 ^ 32) % 2 ^ 32

abbrev pub atomic_sub : ℕ → ℕ → ℕ
atomic_sub n a = (a + 2 ^ 32 - n % 2 ^ 32) % 2 ^ 32

abbrev pub atomic_inc : ℕ → ℕ
atomic_inc a = (a + 1) % 2 ^ 32

abbrev pub atomic_dec : ℕ → ℕ
atomic_dec a = (a + 2 ^ 32 - 1) % 2 ^ 32

abbrev magnitude : ℕ → ℕ
magnitude w = if ltb w (2 ^ 31) then w else 2 ^ 32 - w

-- `a / b` of two `int`s whose divisor is not zero: the quotient is rounded towards zero.
abbrev pub int_div : ℕ → ℕ → ℕ
int_div a b =
    let q = magnitude a / magnitude b in
    if ltb a (2 ^ 31)
    then (if ltb b (2 ^ 31) then q else (2 ^ 32 - q) % 2 ^ 32)
    else (if ltb b (2 ^ 31) then (2 ^ 32 - q) % 2 ^ 32 else q)

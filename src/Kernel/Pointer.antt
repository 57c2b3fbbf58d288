-- ===== src/Kernel/Pointer.antt =====
-- Pointers: NULL, the address of an object, or an error code made by `ERR_PTR`.
use ctrlxt_kernel.Base.{ℕ, Bool, true, false, ℤ, pos, ◌≡◌, is_neg}

pub data Pointer : Type 0 where
  null : Pointer
  addr : ℕ → Pointer
  err_ptr : ℤ → Pointer

abbrev pub is_err : Pointer → Bool
is_err null = false
is_err (addr a) = false
is_err (err_ptr e) = true

-- `PTR_ERR`, called behind `IS_ERR` only; the value at other pointers is never read.
abbrev pub ptr_err : Pointer → ℤ
ptr_err null = pos 0
ptr_err (addr a) = pos 0
ptr_err (err_ptr e) = e

-- The kernel's calls put negative error numbers in a pointer.
abbrev pub HasErrno : Pointer → Type 0
HasErrno null = Unit {0}
HasErrno (addr a) = Unit {0}
HasErrno (err_ptr e) = is_neg e ≡ true

-- A pointer that is never NULL: an object, or an error code made by `ERR_PTR`.
pub data Answer (A : Type 0) : Type 0 where
  made : A → Answer A
  failed : ℤ → Answer A

-- A call that hands out an error code hands out a negative one.
abbrev pub NegErr : {A : Type 0} → Answer A → Type 0
NegErr (made a) = Unit {0}
NegErr (failed e) = is_neg e ≡ true

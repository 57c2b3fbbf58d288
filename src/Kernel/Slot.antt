-- ===== src/Kernel/Slot.antt =====
-- A pointer that one owner keeps to one object: NULL, the object, or a pointer to an object that
-- has been freed. Reading or freeing through the last is a fault.
use ctrlxt_kernel.Base.{◌≡◌, refl, Bool, true, false, Option, none, some}

pub data Slot (A : Type 0) : Type 0 where
  empty : Slot A
  live : A → Slot A
  freed : Slot A

-- What an allocation returns.
abbrev pub slot : {A : Type 0} → Option A → Slot A
slot none = empty
slot (some a) = live a

-- `if (p) free(p);`, where the pointer is not reset; `none` is a fault.
abbrev pub free_slot : {A : Type 0} → Slot A → Option (Slot A)
free_slot empty = some empty
free_slot (live a) = some freed
free_slot freed = none

abbrev pub is_live : {A : Type 0} → Slot A → Bool
is_live empty = false
is_live (live a) = true
is_live freed = false

pub live_of : {A : Type 0} (s : Slot A) → is_live s ≡ true → (a : A) × (s ≡ live a)
live_of empty h = cc
live_of (live a) h = (a, refl)
live_of freed h = cc

-- ===== src/Device/Open.antt =====
-- quantum_open and quantum_release under any interleaving of threads. quantum_open is two atomic
-- steps: the increment with its test, and the decrement of a thread that is turned away.
pub mod Exclusive
use ctrlxt_kernel.Base.{
  ℕ, ◌+◌, ◌≤◌, ◌<◌, ◌^◌, ◌≡◌, refl, Bool, true, false, Option, none, some, List, [], ◌∷◌, ℤ, arith,
  ltb, ◌==◌, if◌then◌else◌, length, get_elem?, set, total, length-set, total-set, get_elem?-set_ne,
  ◌&&◌, ◌⊎◌, ◌∙◌, inl, inr, Bool-cases, eqb→eq, zero, suc,
}
use ctrlxt_kernel.Kernel.Errno.{success, ebusy}
use ctrlxt_kernel.Kernel.Atomic.{atomic_inc, atomic_dec}

-- Where a thread stands: it has not opened the device, has been turned away and has still to take
-- its increment back, or has the device open.
pub data Phase : Type 0 where
  outside turned_away holding : Phase

-- `atomic_inc_return(&dev->open_count) > 1`, with the result read as an `int`.
unfoldable pub enter : ℕ → ℕ × Phase
enter count =
    let n = atomic_inc count in (n, if ltb 1 n && ltb n (2 ^ 31) then turned_away else holding)

unfoldable pub leave : ℕ → ℕ
leave count = atomic_dec count

-- quantum_open with no other thread between its steps: the count and the return code.
unfoldable pub open_device : ℕ → ℕ × ℤ
unfolding enter leave
open_device count = elim ((enter count).1) [
  | turned_away ↦ (leave ((enter count).0), ebusy)
  | _ ↦ ((enter count).0, success)
]

-- quantum_release
unfoldable pub release_device : ℕ → ℕ × ℤ
unfolding leave
release_device count = (leave count, success)

pub record System : Type 0 where
  pub open_count : ℕ
  pub threads : List Phase

abbrev pub At : System → ℕ → Phase → Type 0
At s i p = get_elem? s.threads i ≡ some p

abbrev pub entered : System → ℕ → System
entered s i = record {
  open_count = (enter s.open_count).0;
  threads = set s.threads i (enter s.open_count).1;
}

abbrev pub left : System → ℕ → System
left s i = record { open_count = leave s.open_count; threads = set s.threads i outside }

pub data Step : System → System → Type 0 where
  enters : (s : System) (i : ℕ) → At s i outside → Step s (entered s i)
  backs_off : (s : System) (i : ℕ) → At s i turned_away → Step s (left s i)
  releases : (s : System) (i : ℕ) → At s i holding → Step s (left s i)

pub data Reach (s : System) : System → Type 0 where
  here : Reach s s
  next : {t u : System} → Reach s t → Step t u → Reach s u

abbrev pub busy : Phase → ℕ
busy outside = 0
busy turned_away = 1
busy holding = 1

abbrev pub holds : Phase → ℕ
holds outside = 0
holds turned_away = 0
holds holding = 1

-- All threads outside, as after ctrlxt_quantum_device_init.
abbrev pub all_outside : ℕ → List Phase
all_outside zero = []
all_outside (suc n) = outside ∷ all_outside n

abbrev pub initial : ℕ → System
initial n = record { open_count = 0; threads = all_outside n }

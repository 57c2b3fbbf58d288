-- ===== src/QMem/Race.antt =====
-- Threads that call ctrlxt_qmem_alloc, ctrlxt_qmem_free, ctrlxt_qmem_put and ctrlxt_qmem_get in any
-- interleaving. An allocation is two atomic steps: its checks, which run without the lock, and what
-- it does under the lock; a release runs under the lock, and a get is taken as one step.
pub mod Waiting
pub mod Frees
pub mod Bounds
use ctrlxt_kernel.Base.{
  ℕ, ◌≡◌, Bool, false, ◌||◌, Option, some, List, [], ◌∷◌, ltb, ◌==◌, get_elem?, set, zero, suc,
}
use ctrlxt_kernel.Kernel.Pointer.{Pointer}
use ctrlxt_kernel.Kernel.Run.{ok}
use ctrlxt_kernel.QMem.Defs.{QMem, alloc_locked, is_exhausted, free, get, qmem_max_qubits_per_block}
use ctrlxt_kernel.QMem.Alloc.{IsFresh}
use ctrlxt_kernel.QMem.History.{Owned, Uncrowded}

-- Where a thread stands: outside ctrlxt_qmem_alloc, or behind its checks with its size.
pub data Phase : Type 0 where
  idle : Phase
  admitted : (num_qubits : ℕ) → Phase

-- The two checks of ctrlxt_qmem_alloc, in a state of the manager.
unfoldable pub is_refused : ℕ → QMem → Bool
is_refused num_qubits m =
    ((num_qubits == 0) || ltb qmem_max_qubits_per_block num_qubits) || is_exhausted num_qubits m

pub record System : Type 0 where
  pub qmem : QMem
  pub threads : List Phase

abbrev pub At : System → ℕ → Phase → Type 0
At s i p = get_elem? s.threads i ≡ some p

pub data Step : System → System → Type 0 where
  checks :
      (s : System) (i n : ℕ)
      → At s i idle
      → is_refused n s.qmem ≡ false
      → Step s (record s { threads = set s.threads i (admitted n) })
  commits :
      (s : System) (i n f : ℕ) (block state : Option ℕ) (p : Pointer) (m : QMem)
      → At s i (admitted n)
      → IsFresh block s.qmem
      → alloc_locked n f block state s.qmem ≡ ok p m
      → Step s (record { qmem = m; threads = set s.threads i idle })
  frees :
      (s : System) (p : Pointer) (m : QMem)
      → Owned p s.qmem
      → free p s.qmem ≡ ok tt m
      → Step s (record s { qmem = m })
  gets :
      (s : System) (p q : Pointer) (m : QMem)
      → Owned p s.qmem
      → Uncrowded p s.qmem
      → get p s.qmem ≡ ok q m
      → Step s (record s { qmem = m })

pub data Reach (s : System) : System → Type 0 where
  here : Reach s s
  next : {t u : System} → Reach s t → Step t u → Reach s u

-- What a thread is going to add to the allocated qubits.
abbrev pub pending : Phase → ℕ
pending idle = 0
pending (admitted n) = n

abbrev pub all_idle : ℕ → List Phase
all_idle zero = []
all_idle (suc n) = idle ∷ all_idle n

abbrev pub initial : ℕ → QMem → System
initial n m = record { qmem = m; threads = all_idle n }

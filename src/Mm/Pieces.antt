-- ===== src/Mm/Pieces.antt =====
-- Clients of quantum_memory_alloc and quantum_memory_free: the pieces they hold.
pub mod Stacked
pub mod Disjoint
use ctrlxt_kernel.Base.{
  ℕ, ◌+◌, ◌-◌, ◌^◌, ◌<◌, ◌≤◌, ◌≡◌, refl, Bool, true, false, ◌&&◌, ◌||◌, List, [], ◌∷◌, ◌⊎◌, inl,
  inr, arith, ◌==◌, if◌then◌else◌, Bool-cases, ap,
}
use ctrlxt_kernel.Kernel.Run.{Run, ok, fault, Cmd, Returns, returns, Returns-mono}
use ctrlxt_kernel.Kernel.History.{Lawful, run_all, run_all-keeps}
use ctrlxt_kernel.Mm.{
  Mm, Region, is_quantum, quantum_memory_alloc, quantum_memory_free, give_to, takes_back, minus,
}
use ctrlxt_kernel.Mm.Alloc.{Heads, moved, alloc-moved, moved-Heads}
use ctrlxt_kernel.Mm.Free.{all_normal, give_to-normal}

-- What an allocation handed out.
pub record Piece : Type 0 where
  pub address : ℕ
  pub size : ℕ

abbrev pub is_piece : (address size : ℕ) → Piece → Bool
is_piece a s p = (a == p.address) && (s == p.size)

abbrev pub holds : (address size : ℕ) → List Piece → Bool
holds a s [] = false
holds a s (p ∷ ps) = is_piece a s p || holds a s ps

abbrev pub remove : (address size : ℕ) → List Piece → List Piece
remove a s [] = []
remove a s (p ∷ ps) = if is_piece a s p then ps else p ∷ remove a s ps

-- The manager, and the pieces that its clients hold, the latest first.
pub record Client : Type 0 where
  pub mm : Mm
  pub pieces : List Piece

pub data Op : Type 0 where
  allocs : (size : ℕ) → Op
  frees : (address size : ℕ) → Op

abbrev behind : {A : Type 0} → Run Mm A → (A → List Piece) → Run Client (Unit {0})
behind (ok a m) pieces = ok tt (record { mm = m; pieces = pieces a })
behind fault pieces = fault

unfoldable pub step : Op → Cmd Client (Unit {0})
step (allocs size) c =
    behind (quantum_memory_alloc size c.mm) λ a. record { address = a; size = size } ∷ c.pieces
step (frees address size) c =
    behind (quantum_memory_free address size c.mm) λ _. remove address size c.pieces

-- An allocation is not empty and does not wrap, and what is freed is a piece that is held.
abbrev pub Fits : ℕ → List Region → Type 0
Fits size [] = ⊥
Fits size (r ∷ rest) = r.start + size < 2 ^ 64

abbrev pub Permitted : Op → Client → Type 0
Permitted (allocs size) c = (0 < size) × Fits size c.mm.memory_regions
Permitted (frees address size) c = holds address size c.pieces ≡ true

abbrev pub Apart : Piece → List Piece → Type 0
Apart p [] = Unit {0}
Apart p (q ∷ qs) = (q.address + q.size ≤ p.address ⊎ p.address + p.size ≤ q.address) × Apart p qs

-- No two of the pieces overlap.
abbrev pub Disjoint : List Piece → Type 0
Disjoint [] = Unit {0}
Disjoint (p ∷ ps) = Apart p ps × Disjoint ps

-- The pieces lie at `base` or above.
abbrev pub AllFrom : (base : ℕ) → List Piece → Type 0
AllFrom base [] = Unit {0}
AllFrom base (p ∷ ps) = base ≤ p.address × AllFrom base ps

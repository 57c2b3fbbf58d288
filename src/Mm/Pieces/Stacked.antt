-- ===== src/Mm/Pieces/Stacked.antt =====
-- Pieces that lie one below the other.
use ctrlxt_kernel.Base.{ℕ, ◌+◌, ◌<◌, ◌≤◌, ◌≡◌, true, List, [], ◌∷◌, inl, inr, arith, Bool-cases}
use ctrlxt_kernel.Mm.Pieces.{Piece, is_piece, holds, remove, Apart, Disjoint, AllFrom}

-- The pieces lie one below the other, under `top` and not under `base`.
abbrev pub Stacked : (base top : ℕ) → List Piece → Type 0
Stacked base top [] = base ≤ top
Stacked base top (p ∷ ps) = (0 < p.size) × (p.address + p.size ≤ top) × Stacked base p.address ps

module _ (base : ℕ) where
  raise-Stacked :
      (top higher : ℕ) (ps : List Piece)
      → top ≤ higher
      → Stacked base top ps
      → Stacked base higher ps
  raise-Stacked top higher [] le v = omega arith
  raise-Stacked top higher (p ∷ ps) le (pos, under, v) = (pos, omega arith, v)

  pub holds-under :
      (a s top : ℕ) (ps : List Piece) → Stacked base top ps → holds a s ps ≡ true → a + s ≤ top
  holds-under a s top [] v h = absurd cc
  holds-under a s top (p ∷ ps) (pos, under, v) h = elim (Bool-cases (is_piece a s p)) [
    | inl same ↦ ground arith
    | inr other ↦ let below = holds-under a s p.address ps v (ground arith) in omega arith
  ]

  pub remove-Stacked :
      (a s top : ℕ) (ps : List Piece) → Stacked base top ps → Stacked base top (remove a s ps)
  remove-Stacked a s top [] v = v
  remove-Stacked a s top (p ∷ ps) (pos, under, v) = elim (Bool-cases (is_piece a s p)) [
    | inl same ↦ rw same (raise-Stacked p.address top ps (omega arith) v)
    | inr other ↦ rw other (pos, under, remove-Stacked a s p.address ps v)
  ]

  -- The piece at the top is the latest one.
  pub remove-top :
      (a s top : ℕ) (ps : List Piece)
      → Stacked base top ps
      → holds a s ps ≡ true
      → top ≤ a + s
      → Stacked base a (remove a s ps)
  remove-top a s top [] v h high = absurd cc
  remove-top a s top (p ∷ ps) (pos, under, v) h high = elim (Bool-cases (is_piece a s p)) [
    | inl same ↦ let e : p.address ≡ a = ground arith in rw (same, ← e) v
    | inr other ↦ let below = holds-under a s p.address ps v (ground arith) in absurd (omega arith)
  ]

  Stacked-Apart :
      (p : Piece) (top : ℕ) (ps : List Piece) → top ≤ p.address → Stacked base top ps → Apart p ps
  Stacked-Apart p top [] le v = tt
  Stacked-Apart p top (q ∷ qs) le (pos, under, v) =
      (inl (omega arith), Stacked-Apart p q.address qs (omega arith) v)

  pub Stacked-Disjoint : (top : ℕ) (ps : List Piece) → Stacked base top ps → Disjoint ps
  Stacked-Disjoint top [] v = tt
  Stacked-Disjoint top (p ∷ ps) (pos, under, v) =
      (Stacked-Apart p p.address ps (omega arith) v, Stacked-Disjoint p.address ps v)

  Stacked-le : (top : ℕ) (ps : List Piece) → Stacked base top ps → base ≤ top
  Stacked-le top [] v = v
  Stacked-le top (p ∷ ps) (pos, under, v) = omega (arith, Stacked-le p.address ps v)

  pub Stacked-AllFrom : (top : ℕ) (ps : List Piece) → Stacked base top ps → AllFrom base ps
  Stacked-AllFrom top [] v = tt
  Stacked-AllFrom top (p ∷ ps) (pos, under, v) =
      (Stacked-le p.address ps v, Stacked-AllFrom p.address ps v)

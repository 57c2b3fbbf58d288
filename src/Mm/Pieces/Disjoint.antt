-- ===== src/Mm/Pieces/Disjoint.antt =====
-- No two pieces that clients hold overlap.
use ctrlxt_kernel.Base.{
  ℕ, ◌+◌, ◌^◌, ◌<◌, ◌≡◌, refl, true, List, [], inl, inr, arith, if◌then◌else◌, Bool-cases,
}
use ctrlxt_kernel.Kernel.Run.{ok, Returns, returns, Returns-mono}
use ctrlxt_kernel.Kernel.History.{Lawful, run_all, run_all-keeps}
use ctrlxt_kernel.Mm.{Mm, Region, quantum_memory_free, give_to, takes_back, minus}
use ctrlxt_kernel.Mm.Alloc.{Heads, moved, alloc-moved, moved-Heads}
use ctrlxt_kernel.Mm.Free.{all_normal, give_to-normal}
use ctrlxt_kernel.Mm.Pieces.{
  Piece, holds, remove, Client, Op, allocs, frees, step, Permitted, Disjoint, AllFrom,
}
use ctrlxt_kernel.Mm.Pieces.Stacked.{
  Stacked, holds-under, remove-Stacked, remove-top, Stacked-Disjoint, Stacked-AllFrom,
}

-- The first region is the only quantum region, and the pieces lie below its start.
record IsTiled (base : ℕ) (rest : List Region) (c : Client) : Type 0 where
  region : Region
  heads : Heads region rest c.mm
  bounded : region.start < 2 ^ 64
  stacked : Stacked base region.start c.pieces

free-moved_if :
    (a s : ℕ) (r : Region) (rest : List Region) (m : Mm)
    → Heads r rest m
    → all_normal rest ≡ true
    → quantum_memory_free a s m
      ≡ ok tt (moved r rest (if takes_back a s r then minus r.start s else r.start) m)
unfolding quantum_memory_free give_to
free-moved_if a s r rest m v normal =
    let u = v.unlocked in
    let e = v.regions in
    let q = v.quantum in
    elim (Bool-cases (takes_back a s r)) [
      | inl t ↦ rw (u, e, q, t) refl
      | inr t ↦ rw (u, e, q, t, give_to-normal a s rest normal) refl
    ]

module _ (base : ℕ) (rest : List Region) (normal : all_normal rest ≡ true) where
  allocs-IsTiled :
      (size : ℕ) (c : Client)
      → IsTiled base rest c
      → Permitted (allocs size) c
      → Returns (λ _. IsTiled base rest) (step (allocs size) c)
  unfolding step
  allocs-IsTiled size c v (pos, room) =
      let r = v.region in
      let fits : r.start + size < 2 ^ 64 = rw v.heads.regions at room in
      rw (alloc-moved size r rest c.mm v.heads fits) (
        returns (record {
          region = record r { start = r.start + size };
          heads = moved-Heads (r.start + size) r rest c.mm v.heads;
          bounded = fits;
          stacked = (pos, omega arith, v.stacked);
        }))

  -- A piece that is taken back is the one at the top.
  frees-Stacked :
      (a s : ℕ) (r : Region) (ps : List Piece)
      → r.start < 2 ^ 64
      → Stacked base r.start ps
      → holds a s ps ≡ true
      → Stacked base (if takes_back a s r then minus r.start s else r.start) (remove a s ps)
  frees-Stacked a s r ps fits v h =
      let under = holds-under base a s r.start ps v h in
      elim (Bool-cases (takes_back a s r)) [
        | inl t ↦
            let e : minus r.start s ≡ a = ground arith in
            rw (t, e) (remove-top base a s r.start ps v h (ground arith))
        | inr t ↦ rw t (remove-Stacked base a s r.start ps v)
      ]

  frees-IsTiled :
      (a s : ℕ) (c : Client)
      → IsTiled base rest c
      → Permitted (frees a s) c
      → Returns (λ _. IsTiled base rest) (step (frees a s) c)
  unfolding step
  frees-IsTiled a s c v h =
      let r = v.region in
      let start = if takes_back a s r then minus r.start s else r.start in
      rw (free-moved_if a s r rest c.mm v.heads normal) (
        returns (record {
          region = record r { start = start };
          heads = moved-Heads start r rest c.mm v.heads;
          bounded = ground arith;
          stacked = frees-Stacked a s r c.pieces v.bounded v.stacked h;
        }))

  step-IsTiled :
      (o : Op) (c : Client)
      → IsTiled base rest c
      → Permitted o c
      → Returns (λ _. IsTiled base rest) (step o c)
  step-IsTiled (allocs size) c v h = allocs-IsTiled size c v h
  step-IsTiled (frees a s) c v h = frees-IsTiled a s c v h

-- Where the first region is the only quantum region, starts below 2 ^ 64 and the lock is free,
-- after any calls of quantum_memory_alloc, with sizes above 0 and no address that wraps, and of
-- quantum_memory_free, each of a piece that was handed out and not freed since, no two of the
-- pieces that are still held overlap, and all lie at or above the first start of the region.
pub run_all-Disjoint :
    (os : List Op) (r : Region) (rest : List Region) (m : Mm)
    → Heads r rest m
    → all_normal rest ≡ true
    → r.start < 2 ^ 64
    → Lawful step Permitted os (record { mm = m; pieces = [] })
    → Returns
        (λ _ c. Disjoint c.pieces × AllFrom r.start c.pieces)
        (run_all step os (record { mm = m; pieces = [] }))
run_all-Disjoint os r rest m heads normal bounded lawful =
    Returns-mono
      (run_all-keeps step Permitted (IsTiled r.start rest) (step-IsTiled r.start rest normal) os _
        (record { region = r; heads = heads; bounded = bounded; stacked = omega arith }) lawful)
      λ _ c v. (
        Stacked-Disjoint r.start v.region.start c.pieces v.stacked,
        Stacked-AllFrom r.start v.region.start c.pieces v.stacked,
      )

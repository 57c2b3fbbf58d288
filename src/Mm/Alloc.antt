-- ===== src/Mm/Alloc.antt =====
-- What quantum_memory_alloc hands out.
use ctrlxt_kernel.Base.{ℕ, ◌+◌, ◌%◌, ◌^◌, ◌<◌, ◌≡◌, refl, true, false, List, [], ◌∷◌, arith}
use ctrlxt_kernel.Kernel.Run.{ok, Cmd, pure, ◌>>=◌}
use ctrlxt_kernel.Mm.{Mm, Region, is_quantum, quantum_memory_alloc, take_from}

-- The regions of the manager: a quantum region first, then the others, with the lock free.
pub record Heads (r : Region) (rest : List Region) (m : Mm) : Type 0 where
  pub regions : m.memory_regions ≡ r ∷ rest
  pub quantum : is_quantum r ≡ true
  pub unlocked : m.locked ≡ false

-- The state behind a move of the region's start.
abbrev pub moved : Region → List Region → ℕ → Mm → Mm
moved r rest start m = record m { memory_regions = record r { start = start } ∷ rest }

pub alloc-moved :
    (size : ℕ) (r : Region) (rest : List Region) (m : Mm)
    → Heads r rest m
    → r.start + size < 2 ^ 64
    → quantum_memory_alloc size m ≡ ok r.start (moved r rest (r.start + size) m)
unfolding quantum_memory_alloc take_from
alloc-moved size r rest m v fits =
    let u = v.unlocked in
    let e = v.regions in
    let q = v.quantum in
    let n : (r.start + size) % 2 ^ 64 ≡ r.start + size = omega arith in rw (u, e, q, n) refl

pub moved-Heads :
    (start : ℕ) (r : Region) (rest : List Region) (m : Mm)
    → Heads r rest m
    → Heads (record r { start = start }) rest (moved r rest start m)
moved-Heads s r rest m v = record { regions = refl; quantum = v.quantum; unlocked = v.unlocked }

unfoldable pub alloc_all : List ℕ → Cmd Mm (List ℕ)
alloc_all [] m = ok [] m
alloc_all (size ∷ sizes) m =
    (do a ← quantum_memory_alloc size; more ← alloc_all sizes; pure (a ∷ more)) m

-- Pieces of the given sizes, one behind the other.
unfoldable pub offsets : ℕ → List ℕ → List ℕ
offsets start [] = []
offsets start (size ∷ sizes) = start ∷ offsets (start + size) sizes

unfoldable pub sum : List ℕ → ℕ
sum [] = 0
sum (size ∷ sizes) = size + sum sizes

-- Allocations come one behind the other from the start of the first region, if that is a quantum
-- region, the lock is free and no address wraps, in the order in which they are asked for; nothing
-- else changes but its start.
pub alloc_all-offsets :
    (sizes : List ℕ) (r : Region) (rest : List Region) (m : Mm)
    → Heads r rest m
    → r.start + sum sizes < 2 ^ 64
    → alloc_all sizes m ≡ ok (offsets r.start sizes) (moved r rest (r.start + sum sizes) m)
unfolding alloc_all offsets sum
alloc_all-offsets [] r rest m v fits =
    let z : r.start + 0 ≡ r.start = omega arith in rw (z, v.regions) refl
alloc_all-offsets (size ∷ sizes) r rest m v fits =
    let n = record r { start = r.start + size } in
    rw
      (
        alloc-moved size r rest m v (omega arith),
        alloc_all-offsets sizes n rest (moved r rest (r.start + size) m)
            (moved-Heads (r.start + size) r rest m v) (omega arith),
      )
      (let z : r.start + (size + sum sizes) ≡ r.start + size + sum sizes = omega arith in rw z refl)

-- Nothing stops an allocation past the end: with less room left than is asked for, it returns the
-- start of the region all the same, which then lies behind its end.
pub alloc_overruns :
    (size : ℕ) (r : Region) (rest : List Region) (m : Mm)
    → Heads r rest m
    → r.start + size < 2 ^ 64
    → r.end < r.start + size
    → (n : Mm) × (s : Region) × (quantum_memory_alloc size m ≡ ok r.start n)
      × (n.memory_regions ≡ s ∷ rest)
      × (s.end ≡ r.end)
      × (s.end < s.start)
alloc_overruns size r rest m v fits past = (
  moved r rest (r.start + size) m,
  record r { start = r.start + size },
  alloc-moved size r rest m v fits,
  refl,
  refl,
  past,
)

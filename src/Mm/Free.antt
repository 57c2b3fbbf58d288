-- ===== src/Mm/Free.antt =====
-- What quantum_memory_free takes back.
use ctrlxt_kernel.Base.{
  ℕ, ◌+◌, ◌^◌, ◌<◌, ◌≤◌, ◌≡◌, refl, Bool, true, false, not, ◌&&◌, List, [], ◌∷◌, arith,
}
use ctrlxt_kernel.Kernel.Run.{ok, pure, ◌>>=◌}
use ctrlxt_kernel.Mm.{
  Mm, Region, is_quantum, quantum_memory_alloc, quantum_memory_free, give_to, takes_back, minus,
}
use ctrlxt_kernel.Mm.Alloc.{Heads, moved, alloc-moved, moved-Heads}

-- None of the regions is a quantum region.
unfoldable pub all_normal : List Region → Bool
all_normal [] = true
all_normal (r ∷ rest) = not (is_quantum r) && all_normal rest

pub give_to-normal :
    (address size : ℕ) (rs : List Region) → all_normal rs ≡ true → give_to address size rs ≡ rs
unfolding give_to all_normal
give_to-normal a s [] h = refl
give_to-normal a s (r ∷ rest) h = ground (arith, give_to-normal a s rest)

-- Where the first region is a quantum region that does not start behind its end, the lock is free
-- and no address wraps, the latest allocation is taken back: the manager is exactly as it was.
pub free-moved :
    (size : ℕ) (r : Region) (rest : List Region) (m : Mm)
    → Heads r rest m
    → r.start ≤ r.end
    → r.start + size < 2 ^ 64
    → (quantum_memory_alloc size >>= λ a. quantum_memory_free a size) m ≡ ok tt m
unfolding quantum_memory_free give_to
free-moved size r rest m v order fits =
    let u = v.unlocked in
    let q = v.quantum in
    let n : minus (r.start + size) size ≡ r.start = omega arith in
    let t : takes_back r.start size (record r { start = r.start + size }) ≡ true =
      ground (arith, n) in
    rw (alloc-moved size r rest m v fits, u, q, t, n) (rw v.regions refl)

-- An older allocation is not taken back: with one quantum region, which is the first, two
-- allocated, the second of them not empty, and the first of them freed, the manager is as before
-- the call of quantum_memory_free.
pub free-ignored :
    (a b : ℕ) (r : Region) (rest : List Region) (m : Mm)
    → Heads r rest m
    → all_normal rest ≡ true
    → 0 < b
    → r.start + a + b < 2 ^ 64
    → (quantum_memory_alloc a >>= λ p. quantum_memory_alloc b >>= λ _. quantum_memory_free p a) m
      ≡ (quantum_memory_alloc a >>= λ _. quantum_memory_alloc b >>= λ _. pure tt) m
unfolding quantum_memory_free give_to
free-ignored a b r rest m v normal some_more fits =
    let w = moved-Heads (r.start + a) r rest m v in
    let r' = record r { start = r.start + a } in
    let u = v.unlocked in
    let q = v.quantum in
    let n : minus (r.start + a + b) a ≡ r.start + b = omega arith in
    let t : takes_back r.start a (record r { start = r.start + a + b }) ≡ false =
      ground (arith, n) in
    rw
      (
        alloc-moved a r rest m v (omega arith),
        alloc-moved b r' rest (moved r rest (r.start + a) m) w fits,
        u,
        q,
        t,
        give_to-normal r.start a rest normal,
      )
      refl

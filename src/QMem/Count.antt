-- ===== src/QMem/Count.antt =====
-- Sums over the blocks on a list, such as the qubits that they hold, and how writes to the heap and
-- removals change them.
use ctrlxt_kernel.Base.{
  ℕ, ◌+◌, ◌≡◌, refl, true, false, Option, none, some, List, [], ◌∷◌, arith, has, erase,
}
use ctrlxt_kernel.Kernel.Run.{Heap, write, write-read}
use ctrlxt_kernel.QMem.Defs.{Block}

abbrev pub size_of : Option Block → ℕ
size_of none = 0
size_of (some b) = b.size

-- The sum of the weights of the blocks at the listed addresses.
module _ (weight : Option Block → ℕ) where
  abbrev pub sum_of : Heap Block → List ℕ → ℕ
  sum_of h [] = 0
  sum_of h (a ∷ rest) = weight (h a) + sum_of h rest

  -- A write elsewhere leaves the sum.
  pub sum_of-write_out :
      (h : Heap Block) (a : ℕ) (c : Option Block) (xs : List ℕ)
      → has a xs ≡ false
      → sum_of (write h a c) xs ≡ sum_of h xs
  unfolding write
  sum_of-write_out h a c [] out = refl
  sum_of-write_out h a c (x ∷ xs) out = ground (arith, sum_of-write_out h a c xs)

  -- A write that keeps the weight leaves the sum.
  pub sum_of-write_same :
      (h : Heap Block) (a : ℕ) (c : Option Block) (xs : List ℕ)
      → weight c ≡ weight (h a)
      → sum_of (write h a c) xs ≡ sum_of h xs
  unfolding write
  sum_of-write_same h a c [] same = refl
  sum_of-write_same h a c (x ∷ xs) same = ground (arith, sum_of-write_same h a c xs)

  -- Removing a listed address takes its weight out of the sum.
  pub sum_of-erase :
      (h : Heap Block) (a : ℕ) (xs : List ℕ)
      → has a xs ≡ true
      → sum_of h xs ≡ weight (h a) + sum_of h (erase a xs)
  sum_of-erase h a [] out = ground arith
  sum_of-erase h a (x ∷ xs) out = ground (arith, sum_of-erase h a xs)

  -- A new block in front adds its weight.
  pub sum_of-write_new :
      (h : Heap Block) (a : ℕ) (c : Option Block) (xs : List ℕ)
      → has a xs ≡ false
      → sum_of (write h a c) (a ∷ xs) ≡ weight c + sum_of h xs
  sum_of-write_new h a c xs out = rw (write-read h a c, sum_of-write_out h a c xs out)

-- The qubits of the blocks at the listed addresses.
abbrev pub held : Heap Block → List ℕ → ℕ
held = sum_of size_of

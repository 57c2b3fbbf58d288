-- ===== src/QMem/Keep.antt =====
-- The invariant behind a release, a change of a reference count and a new maximum.
use ctrlxt_kernel.Base.{
  ℕ, ◌+◌, ◌<◌, ◌^◌, ◌≡◌, refl, true, false, none, some, arith, ◌==◌, has, erase, has-erase_ne,
  has-erase_self, erase-Distinct, inl, inr, Bool-cases, eqb→eq,
}
use ctrlxt_kernel.Kernel.Run.{write}
use ctrlxt_kernel.QMem.Defs.{Block, QMem}
use ctrlxt_kernel.QMem.Count.{held, size_of, sum_of-write_out, sum_of-write_same, sum_of-erase}
use ctrlxt_kernel.QMem.Sound.{IsBlock, IsSound}
use ctrlxt_kernel.QMem.Free.{released, recounted}

-- A block that is allocated is on the used list.
pub has_of_some :
    {m : QMem} (a : ℕ) (b : Block) → IsSound m → m.heap a ≡ some b → has a m.used_blocks ≡ true
has_of_some {m} a b v e = elim (Bool-cases (has a m.used_blocks)) [
  | inl h ↦ h
  | inr h ↦ ground (arith, v.dead a h)
]

-- And its fields are those of a live block.
pub live_block : {m : QMem} (a : ℕ) (b : Block) → IsSound m → m.heap a ≡ some b → IsBlock (some b)
live_block {m} a b v e = rw e at (v.live a (has_of_some a b v e))

module _ (a : ℕ) (b : Block) (m : QMem) (v : IsSound m) (e : m.heap a ≡ some b) where
  pub held-released :
      held m.heap m.used_blocks ≡ b.size + held (write m.heap a none) (erase a m.used_blocks)
  held-released = ground (
    arith,
    sum_of-erase size_of m.heap a m.used_blocks (has_of_some a b v e),
    sum_of-write_out size_of m.heap a none (erase a m.used_blocks)
        (has-erase_self a m.used_blocks v.distinct),
  )

  released-dead : (x : ℕ) → has x (erase a m.used_blocks) ≡ false → write m.heap a none x ≡ none
  unfolding write
  released-dead x h = elim (Bool-cases (x == a)) [
    | inl p ↦ rw p
    | inr p ↦ rw p (v.dead x (ground (arith, has-erase_ne x a m.used_blocks p)))
  ]

  released-live : (x : ℕ) → has x (erase a m.used_blocks) ≡ true → IsBlock (write m.heap a none x)
  unfolding write
  released-live x h = elim (Bool-cases (x == a)) [
    | inl p ↦ absurd (ground (arith, eqb→eq x a p, has-erase_self a m.used_blocks v.distinct))
    | inr p ↦ rw p (v.live x (ground (arith, has-erase_ne x a m.used_blocks p)))
  ]

  pub released-IsSound : IsSound (released a b m)
  released-IsSound =
      let (_, _, _, size) = live_block a b v e in
      record {
        distinct = erase-Distinct a m.used_blocks v.distinct;
        live = released-live;
        dead = released-dead;
        ledger = omega (arith, held-released, v.ledger, v.within, v.small);
        same = omega (arith, v.same);
        within = omega (arith, held-released, v.ledger, v.within, v.small);
        small = v.small;
        unlocked = refl;
      }

  recounted-live :
      (n x : ℕ)
      → 0 < n
      → n < 2 ^ 32
      → has x m.used_blocks ≡ true
      → IsBlock (write m.heap a (some (record b { ref_count = n })) x)
  unfolding write
  recounted-live n x pos fits h = ground (arith, v.live x h, live_block a b v e)

  recounted-dead :
      (n x : ℕ)
      → has x m.used_blocks ≡ false
      → write m.heap a (some (record b { ref_count = n })) x ≡ none
  unfolding write
  recounted-dead n x h = ground (arith, v.dead x h, has_of_some a b v e, eqb→eq x a)

  pub recounted-IsSound : (n : ℕ) → 0 < n → n < 2 ^ 32 → IsSound (recounted a b n m)
  recounted-IsSound n pos fits = record {
    distinct = v.distinct;
    live = λ x h. recounted-live n x pos fits h;
    dead = recounted-dead n;
    ledger = ground (
      arith,
      v.ledger,
      e,
      sum_of-write_same size_of m.heap a (some (record b { ref_count = n })) m.used_blocks,
    );
    same = v.same;
    within = v.within;
    small = v.small;
    unlocked = v.unlocked;
  }

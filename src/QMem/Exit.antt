-- ===== src/QMem/Exit.antt =====
-- qmem_exit: every block and every quantum state is given back once.
use ctrlxt_kernel.Base.{
  ℕ, ◌≡◌, refl, true, false, Option, none, some, List, [], ◌∷◌, arith, has, erase, Distinct,
  cons_opt, Option-cases, eqb→eq, eqb_refl, inl, inr, ap, sym, ◌∙◌,
}
use ctrlxt_kernel.Kernel.Run.{Heap, write, Returns, returns, Returns-then, Returns-mono, ◌>>◌}
use ctrlxt_kernel.QMem.Defs.{
  Block, QMem, exit, exit_blocks, kfree_block, state_free, pool_free, unlock,
}
use ctrlxt_kernel.QMem.Sound.{IsBlock, IsSound}

abbrev pub state_of : Option Block → Option ℕ
state_of none = none
state_of (some b) = b.state

-- The quantum states of the listed blocks put before `done`, the last block's first.
abbrev pub states_onto : Heap Block → List ℕ → List ℕ → List ℕ
states_onto h [] done = done
states_onto h (a ∷ rest) done = states_onto h rest (cons_opt (state_of (h a)) done)

states_onto-write :
    (h : Heap Block) (a : ℕ) (c : Option Block) (xs done : List ℕ)
    → has a xs ≡ false
    → states_onto (write h a c) xs done ≡ states_onto h xs done
unfolding write
states_onto-write h a c [] done out = refl
states_onto-write h a c (x ∷ xs) done out =
    ground (arith, states_onto-write h a c xs (cons_opt (state_of (h x)) done))

-- The state behind one round of the loop.
abbrev dropped : ℕ → Block → QMem → QMem
dropped a b m = record m {
  used_blocks = erase a m.used_blocks;
  heap = write m.heap a none;
  freed_states = cons_opt b.state m.freed_states;
}

exit_blocks-dropped :
    (a : ℕ) (b : Block) (rest : List ℕ) (m : QMem)
    → m.heap a ≡ some b
    → exit_blocks (a ∷ rest) m ≡ exit_blocks rest (dropped a b m)
unfolding exit_blocks kfree_block state_free
exit_blocks-dropped a b rest m e = ground arith

record Emptied (m : QMem) (xs : List ℕ) (m' : QMem) : Type 0 where
  used : m'.used_blocks ≡ []
  gone : (x : ℕ) → m'.heap x ≡ none
  states : m'.freed_states ≡ states_onto m.heap xs m.freed_states
  pool : m'.memory_pool ≡ m.memory_pool
  pools : m'.freed_pools ≡ m.freed_pools

exit_blocks-nil :
    (m : QMem)
    → m.used_blocks ≡ []
    → ((x : ℕ) → m.heap x ≡ none)
    → Returns (λ _. Emptied m []) (exit_blocks [] m)
unfolding exit_blocks
exit_blocks-nil m e dead =
    returns (record { used = e; gone = dead; states = refl; pool = refl; pools = refl })

Emptied-dropped :
    (a : ℕ) (b : Block) (rest : List ℕ) (m m' : QMem)
    → m.heap a ≡ some b
    → has a rest ≡ false
    → Emptied (dropped a b m) rest m'
    → Emptied m (a ∷ rest) m'
Emptied-dropped a b rest m m' p out w = record {
  used = w.used;
  gone = w.gone;
  states =
      w.states
      ∙ states_onto-write m.heap a none rest (cons_opt b.state m.freed_states) out
      ∙ ap (λ o. states_onto m.heap rest (cons_opt (state_of o) m.freed_states)) (sym p);
  pool = w.pool;
  pools = w.pools;
}

dropped-live :
    (a : ℕ) (rest : List ℕ) (h : Heap Block)
    → has a rest ≡ false
    → ((x : ℕ) → has x (a ∷ rest) ≡ true → IsBlock (h x))
    → (x : ℕ) → has x rest ≡ true
    → IsBlock (write h a none x)
unfolding write
dropped-live a rest h out live x i = ground (arith, live x, eqb→eq x a)

dropped-dead :
    (a : ℕ) (rest : List ℕ) (h : Heap Block)
    → ((x : ℕ) → has x (a ∷ rest) ≡ false → h x ≡ none)
    → (x : ℕ) → has x rest ≡ false
    → write h a none x ≡ none
unfolding write
dropped-dead a rest h dead x o = ground (arith, dead x)

exit_blocks-Emptied :
    (xs : List ℕ) (m : QMem)
    → m.used_blocks ≡ xs
    → Distinct xs
    → ((x : ℕ) → has x xs ≡ true → IsBlock (m.heap x))
    → ((x : ℕ) → has x xs ≡ false → m.heap x ≡ none)
    → Returns (λ _. Emptied m xs) (exit_blocks xs m)
exit_blocks-Emptied [] m e d live dead = exit_blocks-nil m e (λ x. dead x refl)
exit_blocks-Emptied (a ∷ rest) m e d live dead = elim (Option-cases (m.heap a)) [
  | inl p ↦ absurd (rw p at (live a (ground (arith, eqb_refl a))))
  | inr (b, p) ↦ rw (exit_blocks-dropped a b rest m p) (
      Returns-mono
        (exit_blocks-Emptied rest (dropped a b m) (rw e (ground (arith, eqb_refl a))) d.1
          (dropped-live a rest m.heap d.0 live) (dropped-dead a rest m.heap dead))
        λ _ m' w. Emptied-dropped a b rest m m' p d.0 w)
]

pool_free-frees :
    (m m' : QMem)
    → Emptied (record m { locked = true }) m.used_blocks m'
    → Returns
        (λ _ s.
          (s.used_blocks ≡ [])
          × ((x : ℕ) → s.heap x ≡ none)
          × (s.freed_states ≡ states_onto m.heap m.used_blocks m.freed_states)
          × (s.freed_pools ≡ cons_opt m.memory_pool m.freed_pools)
          × (s.locked ≡ false))
        ((pool_free m.memory_pool >> unlock) m')
unfolding pool_free
pool_free-frees m m' w = elim (Option-cases m.memory_pool) [
  | inl e ↦ rw (e, pool_free) (returns (w.used, w.gone, w.states, w.pools, refl))
  | inr (p, e) ↦ rw (e, pool_free) (returns (w.used, w.gone, w.states, ap (◌∷◌ p) w.pools, refl))
]

-- On unloading in a state with the invariant, qmem_exit ends without a fault with the lock free;
-- it leaves no used block and no allocated block, has freed the quantum state of each used block
-- once and no other, and has freed the memory pool if there is one.
pub exit-frees :
    (m : QMem)
    → IsSound m
    → Returns
        (λ _ m'.
          (m'.used_blocks ≡ [])
          × ((x : ℕ) → m'.heap x ≡ none)
          × (m'.freed_states ≡ states_onto m.heap m.used_blocks m.freed_states)
          × (m'.freed_pools ≡ cons_opt m.memory_pool m.freed_pools)
          × (m'.locked ≡ false))
        (exit m)
unfolding exit
exit-frees m v = rw v.unlocked (
    Returns-then
      (exit_blocks-Emptied m.used_blocks (record m { locked = true }) refl v.distinct v.live v.dead)
      λ _ m' w. pool_free-frees m m' w)

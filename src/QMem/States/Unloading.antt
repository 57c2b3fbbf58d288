-- ===== src/QMem/States/Unloading.antt =====
-- From loading to unloading: every quantum state that a block got is freed once.
use ctrlxt_kernel.Base.{
  ℕ, ◌+◌, ◌≡◌, refl, ap, false, Option, none, some, List, [], ◌∷◌, arith, cons_opt,
}
use ctrlxt_kernel.Kernel.Pointer.{null, addr, err_ptr}
use ctrlxt_kernel.Kernel.Run.{
  pure, ◌>>=◌, ◌>>◌, Heap, Returns, returns, Returns-then, Returns-both, Returns-all,
}
use ctrlxt_kernel.QMem.Defs.{Block, QMem, init, exit}
use ctrlxt_kernel.QMem.Count.{sum_of}
use ctrlxt_kernel.QMem.Sound.{IsSound}
use ctrlxt_kernel.QMem.Exit.{exit-frees, states_onto, state_of}
use ctrlxt_kernel.QMem.History.{
  Op, allocs, frees, puts, gets, sets_max, unloaded, initial, initial-IsSound,
}
use ctrlxt_kernel.QMem.Pool.{Answer, pointer, code, silent, call_all, view, AllAllowed, empty_pool}
use ctrlxt_kernel.QMem.Pool.Refines.{call-answer}
use ctrlxt_kernel.QMem.States.{has_state, is_state_opt, count, accounted, entrusted}
use ctrlxt_kernel.QMem.States.Calls.{handed, call-accounted, count-cons_opt}

module _ (s : ℕ) where
  entrusted_cons :
      (o : Op) (a : Answer) (os : List Op) (rest : List Answer)
      → count s (entrusted (o ∷ os) (a ∷ rest)) ≡ handed s o a + count s (entrusted os rest)
  entrusted_cons (allocs n f block none) a os rest = omega arith
  entrusted_cons (allocs n f block (some t)) (pointer null) os rest = omega arith
  entrusted_cons (allocs n f block (some t)) (pointer (addr a)) os rest = omega arith
  entrusted_cons (allocs n f block (some t)) (pointer (err_ptr e)) os rest = omega arith
  entrusted_cons (allocs n f block (some t)) (code e) os rest = omega arith
  entrusted_cons (allocs n f block (some t)) silent os rest = omega arith
  entrusted_cons (frees q) a os rest = omega arith
  entrusted_cons (puts q) a os rest = omega arith
  entrusted_cons (gets q) a os rest = omega arith
  entrusted_cons (sets_max n) a os rest = omega arith

  call_all-accounted :
      (os : List Op) (m : QMem)
      → IsSound m
      → AllAllowed os (view m)
      → Returns
          (λ answers l.
            IsSound l × (accounted s l ≡ count s (entrusted os answers) + accounted s m))
          (call_all os m)
  unfolding call_all
  call_all-accounted [] m v h = returns (v, omega arith)
  call_all-accounted (o ∷ os) m v (h, rest) =
      Returns-then (Returns-both (call-answer o m v h) (call-accounted s o m v h))
        λ a n ((w, e), f).
          let next = ap (λ x. x.1) e in
          Returns-then (call_all-accounted os n w (rw next rest))
            λ others t (u, g). returns (u, omega (arith, entrusted_cons o a os others, f, g))

  count-states_onto :
      (h : Heap Block) (xs done : List ℕ)
      → count s (states_onto h xs done) ≡ sum_of (has_state s) h xs + count s done
  count-states_onto h [] done = omega arith
  count-states_onto h (a ∷ rest) done = omega (
    arith,
    count-states_onto h rest (cons_opt (state_of (h a)) done),
    count-cons_opt s (state_of (h a)) done,
    has_state-state_of (h a),
  )
    where
      has_state-state_of : (o : Option Block) → has_state s o ≡ is_state_opt s (state_of o)
      has_state-state_of none = refl
      has_state-state_of (some b) = refl

-- When the memory pool is allocated, loading the module, a list of calls that the pool of leases
-- allows, and unloading it end without a fault with no block left and the lock free; every quantum
-- state has then been freed as often as calls that answered with a block had put it into one.
pub init-call_all-exit :
    (pool : ℕ) (os : List Op)
    → AllAllowed os empty_pool
    → Returns
        (λ answers m.
          (m.used_blocks ≡ [])
          × ((x : ℕ) → m.heap x ≡ none)
          × (m.locked ≡ false)
          × ((s : ℕ) → count s m.freed_states ≡ count s (entrusted os answers)))
        ((init (some pool) >> call_all os >>= λ answers. exit >> pure answers) unloaded)
unfolding init
init-call_all-exit pool os h =
    Returns-then
      (Returns-all 0 λ s. call_all-accounted s os (initial pool) (initial-IsSound pool) h)
      λ answers m w. Returns-then (exit-frees m (w 0).0) λ _ l (used, gone, states, _, free).
        returns (
          used,
          gone,
          free,
          λ s.
              rw states
                (omega (arith, count-states_onto s m.heap m.used_blocks m.freed_states, (w s).1)),
        )

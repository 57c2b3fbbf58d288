-- ===== src/QMem/Pool/Refines.antt =====
-- The quantum memory manager refines the pool of leases.
use ctrlxt_kernel.Base.{
  ℕ, ◌<◌, ◌^◌, ◌≡◌, refl, ap, Option, none, some, List, [], ◌∷◌, arith, inl, inr, Bool-cases, ltb,
}
use ctrlxt_kernel.Kernel.Errno.{success}
use ctrlxt_kernel.Kernel.Pointer.{Pointer, null, addr, err_ptr}
use ctrlxt_kernel.Kernel.Run.{◌>>◌, Returns, returns, Returns-then, Returns-ok, Returns-mono}
use ctrlxt_kernel.Kernel.Atomic.{to_ulong}
use ctrlxt_kernel.QMem.Defs.{QMem, init, free, put, get, set_max_qubits}
use ctrlxt_kernel.QMem.Sound.{IsSound}
use ctrlxt_kernel.QMem.Alloc.{IsFresh}
use ctrlxt_kernel.QMem.History.{
  Op, allocs, frees, puts, gets, sets_max, unloaded, initial, initial-IsSound,
  set_max_qubits-IsSound,
}
use ctrlxt_kernel.QMem.Pool.{
  pointer, code, silent, call, call_all, view, pool_free, pool_get, pool_set_max, answer,
  answer_all, Leased, Sharable, Allowed, AllAllowed, empty_pool,
}
use ctrlxt_kernel.QMem.Pool.Moves.{
  leased_block, unleased, Shows, pool_of, alloc-pool_alloc, free-pool_free, get-pool_get,
}

module _ (m : QMem) (v : IsSound m) where
  free-Shows :
      (q : Pointer)
      → Leased q (view m)
      → Returns (λ _ m'. IsSound m' × (view m' ≡ pool_free q (view m))) (free q m)
  unfolding free
  free-Shows null h = returns (v, refl)
  free-Shows (err_ptr e) h = absurd h
  free-Shows (addr a) (l, e) =
      let (b, at_a, _, _) = leased_block (m.heap a) l e in free-pool_free a b m v at_a

  get-Shows :
      (q : Pointer)
      → Sharable q (view m)
      → Returns (λ p. Shows (pointer q, pool_get q (view m)) (pointer p)) (get q m)
  unfolding get
  get-Shows null h = returns (v, refl)
  get-Shows (err_ptr e) h = absurd h
  get-Shows (addr a) (l, e, room) =
      let (b, at_a, _, same) = leased_block (m.heap a) l e in
      get-pool_get a b m v at_a (rw same room)

  set_max_qubits-Shows :
      (n : ℕ)
      → n < 2 ^ 31
      → Returns (λ r. Shows (pool_set_max n (view m)) (code r)) (set_max_qubits n m)
  unfolding set_max_qubits
  set_max_qubits-Shows n fits =
      let size : to_ulong m.allocated_qubits ≡ m.allocated_qubits =
        ground (arith, v.within, v.small) in
      let keeps = set_max_qubits-IsSound n m v fits in
      elim (Bool-cases (ltb n m.allocated_qubits)) [
        | inl low ↦ rw (size, low) (returns (v, refl))
        | inr enough ↦
            let sound = rw (size, enough) at keeps in
            rw (size, enough)
              (returns (
                Returns-ok sound refl,
                ap (λ k. (code success, pool_of (view m).leases m.allocated_qubits k))
                    (omega arith),
              ))
      ]

  pub allocs-IsFresh :
      (n f : ℕ) (block state : Option ℕ)
      → Allowed (allocs n f block state) (view m)
      → IsFresh block m
  allocs-IsFresh n f none state h = tt
  allocs-IsFresh n f (some a) state h = unleased (m.heap a) h

pub call-answer :
    (o : Op) (m : QMem)
    → IsSound m
    → Allowed o (view m)
    → Returns (Shows (answer o (view m))) (call o m)
unfolding call put
call-answer (allocs n f block state) m v h =
    Returns-then (alloc-pool_alloc n f block state m v (allocs-IsFresh m v n f block state h))
      (λ _ _ w. returns w)
call-answer (frees q) m v h =
    Returns-then (free-Shows m v q h) (λ _ _ (w, e). returns (w, ap (λ p. (silent, p)) e))
call-answer (puts null) m v h = returns (v, refl)
call-answer (puts (addr a)) m v h =
    Returns-then (free-Shows m v (addr a) h) (λ _ _ (w, e). returns (w, ap (λ p. (silent, p)) e))
call-answer (puts (err_ptr e)) m v h = absurd h
call-answer (gets q) m v h = Returns-then (get-Shows m v q h) (λ _ _ w. returns w)
call-answer (sets_max n) m v h = Returns-then (set_max_qubits-Shows m v n h) (λ _ _ w. returns w)

call_all-answer_all :
    (os : List Op) (m : QMem)
    → IsSound m
    → AllAllowed os (view m)
    → Returns
        (λ answers m'. IsSound m' × ((answers, view m') ≡ answer_all os (view m)))
        (call_all os m)
unfolding call_all
call_all-answer_all [] m v h = returns (v, refl)
call_all-answer_all (o ∷ os) m v (h, rest) = Returns-then (call-answer o m v h) λ a n (w, e).
    let next = ap (λ x. x.1) e in
    Returns-then (call_all-answer_all os n w (rw next rest))
      λ others t (u, f). returns (u, rw (← e) (rw (← f) refl))

-- ctrlxt_qmem_init with a memory pool, and then a list of calls that the pool of leases allows,
-- ends without a fault; its answers and what the pool sees of its state are those that the pool
-- itself gives, from no lease and the default maximum on.
pub init-call_all-answer_all :
    (pool : ℕ) (os : List Op)
    → AllAllowed os empty_pool
    → Returns
        (λ answers m. (answers, view m) ≡ answer_all os empty_pool)
        ((init (some pool) >> call_all os) unloaded)
unfolding init
init-call_all-answer_all pool os h =
    Returns-mono (call_all-answer_all os (initial pool) (initial-IsSound pool) h)
      λ answers m (_, e). e

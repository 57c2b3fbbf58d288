-- ===== src/QMem/States/Calls.antt =====
-- No call on the memory manager loses a quantum state or frees it twice.
use ctrlxt_kernel.Base.{
  ℕ, ◌+◌, ◌-◌, ◌≡◌, refl, Option, none, some, List, [], ◌∷◌, arith, inl, inr, Bool-cases, if_cases,
  ltb, leb, ◌==◌, ◌&&◌, eqb→eq, erase, cons_opt, ℤ,
}
use ctrlxt_kernel.Kernel.Pointer.{Pointer, null, addr, err_ptr}
use ctrlxt_kernel.Kernel.Run.{ok, Returns, returns, Returns-then}
use ctrlxt_kernel.QMem.Defs.{
  Block, QMem, alloc, free, put, get, set_max_qubits, qmem_max_qubits_per_block,
}
use ctrlxt_kernel.QMem.Count.{
  sum_of, sum_of-write_new, sum_of-write_out, sum_of-write_same, sum_of-erase,
}
use ctrlxt_kernel.QMem.Sound.{IsSound, granted, new_block, not-has_of_none}
use ctrlxt_kernel.QMem.Alloc.{IsFresh, granted_if, alloc-alloc_reference}
use ctrlxt_kernel.QMem.Free.{released, recounted, free-released, free-recounted, get-recounted}
use ctrlxt_kernel.QMem.Keep.{has_of_some, live_block}
use ctrlxt_kernel.Base.{has-erase_self}
use ctrlxt_kernel.QMem.History.{Op, allocs, frees, puts, gets, sets_max}
use ctrlxt_kernel.QMem.Pool.{Answer, pointer, call, view, Leased, Sharable, Allowed}
use ctrlxt_kernel.Kernel.Errno.{einval, enomem}
use ctrlxt_kernel.Kernel.Atomic.{to_ulong}
use ctrlxt_kernel.QMem.Pool.Refines.{allocs-IsFresh}
use ctrlxt_kernel.QMem.Pool.Moves.{leased_block}
use ctrlxt_kernel.QMem.States.{is_state, is_state_opt, has_state, count, accounted, entrusted}

pub count-cons_opt :
    (s : ℕ) (o : Option ℕ) (xs : List ℕ) → count s (cons_opt o xs) ≡ is_state_opt s o + count s xs
count-cons_opt s none xs = omega arith
count-cons_opt s (some t) xs = refl

-- The state that an answered call has put into a block, counted.
abbrev pub handed : ℕ → Op → Answer → ℕ
handed s o a = count s (entrusted (o ∷ []) (a ∷ []))

module _ (s : ℕ) where
  granted-accounted :
      (n f a t : ℕ) (m : QMem)
      → IsSound m
      → m.heap a ≡ none
      → accounted s (granted n f a t m) ≡ is_state s t + accounted s m
  granted-accounted n f a t m v fresh = omega (
    arith,
    sum_of-write_new (has_state s) m.heap a (some (new_block n f t)) m.used_blocks
        (not-has_of_none a v fresh),
  )

  module _ (a : ℕ) (b : Block) (m : QMem) (v : IsSound m) (e : m.heap a ≡ some b) where
    released-accounted : accounted s (released a b m) ≡ accounted s m
    released-accounted =
        let gone : sum_of (has_state s) m.heap m.used_blocks
            ≡ is_state_opt s b.state + sum_of (has_state s) m.heap (erase a m.used_blocks) =
          rw e at (sum_of-erase (has_state s) m.heap a m.used_blocks (has_of_some a b v e)) in
        omega (
          arith,
          gone,
          count-cons_opt s b.state m.freed_states,
          sum_of-write_out (has_state s) m.heap a none (erase a m.used_blocks)
              (has-erase_self a m.used_blocks v.distinct),
        )

    recounted-accounted : (n : ℕ) → accounted s (recounted a b n m) ≡ accounted s m
    recounted-accounted n =
        let same : is_state_opt s b.state ≡ has_state s (m.heap a) = rw e refl in
        omega (
          arith,
          sum_of-write_same (has_state s) m.heap a (some (record b { ref_count = n })) m.used_blocks
              same,
        )

    free_block-accounted : Returns (λ _ l. accounted s l ≡ accounted s m) (free (addr a) m)
    free_block-accounted =
        let (pos, fits, _, _) = live_block a b v e in
        elim (Bool-cases (b.ref_count == 1)) [
          | inl last ↦
              rw (free-released a b m v.unlocked e (eqb→eq b.ref_count 1 last))
                (returns released-accounted)
          | inr more ↦
              rw (free-recounted a b m v.unlocked e (ground arith) fits)
                (returns (recounted-accounted (b.ref_count - 1)))
        ]

  granted_if-accounted :
      (n f : ℕ) (block state : Option ℕ) (m : QMem)
      → IsSound m
      → IsFresh block m
      → Returns
          (λ p l. accounted s l ≡ handed s (allocs n f block state) (pointer p) + accounted s m)
          (granted_if n f block state m)
  granted_if-accounted n f none none m v fresh = returns (omega arith)
  granted_if-accounted n f none (some t) m v fresh = returns (omega arith)
  granted_if-accounted n f (some a) none m v fresh = returns (omega arith)
  granted_if-accounted n f (some a) (some t) m v fresh =
      returns (omega (arith, granted-accounted n f a t m v fresh))

  refused_accounted :
      (n f : ℕ) (e : ℤ) (block state : Option ℕ) (m : QMem)
      → Returns
          (λ p l. accounted s l ≡ handed s (allocs n f block state) (pointer p) + accounted s m)
          (ok (err_ptr e) m)
  refused_accounted n f e block none m = returns (omega arith)
  refused_accounted n f e block (some t) m = returns (omega arith)

  alloc-accounted :
      (n f : ℕ) (block state : Option ℕ) (m : QMem)
      → IsSound m
      → IsFresh block m
      → Returns
          (λ p l. accounted s l ≡ handed s (allocs n f block state) (pointer p) + accounted s m)
          (alloc n f block state m)
  alloc-accounted n f block state m v fresh =
      rw (alloc-alloc_reference n f block state m v fresh)
        (elim (Bool-cases (ltb 0 n && leb n qmem_max_qubits_per_block)) [
          | inr out ↦ rw out (refused_accounted n f einval block state m)
          | inl size ↦ rw size (elim (Bool-cases (leb (m.allocated_qubits + n) m.max_qubits)) [
            | inr over ↦ rw over (refused_accounted n f enomem block state m)
            | inl fits ↦ rw fits (granted_if-accounted n f block state m v fresh)
          ])
        ])

  module _ (m : QMem) (v : IsSound m) where
    free-accounted :
        (q : Pointer)
        → Leased q (view m)
        → Returns (λ _ l. accounted s l ≡ accounted s m) (free q m)
    unfolding free
    free-accounted null h = returns refl
    free-accounted (err_ptr e) h = absurd h
    free-accounted (addr a) (l, e) =
        let (b, at_a, _, _) = leased_block (m.heap a) l e in free_block-accounted a b m v at_a

    put-accounted :
        (q : Pointer) → Leased q (view m) → Returns (λ _ l. accounted s l ≡ accounted s m) (put q m)
    unfolding put
    put-accounted null h = returns refl
    put-accounted (err_ptr e) h = absurd h
    put-accounted (addr a) h = free-accounted (addr a) h

    get-accounted :
        (q : Pointer)
        → Sharable q (view m)
        → Returns (λ _ l. accounted s l ≡ accounted s m) (get q m)
    unfolding get
    get-accounted null h = returns refl
    get-accounted (err_ptr e) h = absurd h
    get-accounted (addr a) (l, e, room) =
        let (b, at_a, _, same) = leased_block (m.heap a) l e in
        rw (get-recounted a b m at_a (rw same room))
          (returns (recounted-accounted a b m v at_a (b.ref_count + 1)))

    set_max_qubits-accounted :
        (n : ℕ) → Returns (λ _ l. accounted s l ≡ accounted s m) (set_max_qubits n m)
    unfolding set_max_qubits
    set_max_qubits-accounted n =
        if_cases (Returns λ _ l. accounted s l ≡ accounted s m)
          (ltb n (to_ulong m.allocated_qubits)) _ _ (λ _. returns refl) (λ _. returns refl)

  -- Each allowed call accounts for the state that it is given, and for no other.
  pub call-accounted :
      (o : Op) (m : QMem)
      → IsSound m
      → Allowed o (view m)
      → Returns (λ a l. accounted s l ≡ handed s o a + accounted s m) (call o m)
  unfolding call
  call-accounted (allocs n f block state) m v h =
      Returns-then (alloc-accounted n f block state m v (allocs-IsFresh m v n f block state h))
        λ _ _ w. returns w
  call-accounted (frees q) m v h =
      Returns-then (free-accounted m v q h) λ _ _ w. returns (omega (arith, w))
  call-accounted (puts q) m v h =
      Returns-then (put-accounted m v q h) λ _ _ w. returns (omega (arith, w))
  call-accounted (gets q) m v h =
      Returns-then (get-accounted m v q h) λ _ _ w. returns (omega (arith, w))
  call-accounted (sets_max n) m v h =
      Returns-then (set_max_qubits-accounted m v n) λ _ _ w. returns (omega (arith, w))

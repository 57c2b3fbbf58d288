-- ===== src/QMem/Pool/Moves.antt =====
-- Each operation of the quantum memory manager on a live block, as the pool of leases sees it.
use ctrlxt_kernel.Base.{
  ℕ, ◌+◌, ◌-◌, ◌≤◌, ◌<◌, ◌^◌, ◌≡◌, refl, ap, Option, none, some, arith, inl, inr, Bool-cases, ltb,
  leb, ◌==◌, ◌&&◌, eqb→eq, fun_ext,
}
use ctrlxt_kernel.Kernel.Pointer.{addr}
use ctrlxt_kernel.Kernel.Run.{Heap, write, Returns, returns}
use ctrlxt_kernel.QMem.Defs.{Block, QMem, alloc, free, get, qmem_max_qubits_per_block}
use ctrlxt_kernel.QMem.Sound.{IsSound, granted, granted-IsSound}
use ctrlxt_kernel.QMem.Alloc.{IsFresh, granted_if, alloc-alloc_reference}
use ctrlxt_kernel.QMem.Free.{released, recounted, free-released, free-recounted, get-recounted}
use ctrlxt_kernel.QMem.Keep.{held-released, live_block, released-IsSound, recounted-IsSound}
use ctrlxt_kernel.QMem.Pool.{
  Answer, pointer, Lease, Pool, lease_of, view, lend, pool_alloc, pool_free, pool_get,
}

-- The block behind a lease.
pub leased_block :
    (c : Option Block) (l : Lease)
    → lease_of c ≡ some l
    → (b : Block) × (c ≡ some b) × (b.size ≡ l.size) × (b.ref_count ≡ l.references)
leased_block none l e = cc
leased_block (some b) l e = (b, refl, cc, cc)

pub unleased : (c : Option Block) → lease_of c ≡ none → c ≡ none
unleased none e = refl
unleased (some b) e = cc

leases-write :
    (h : Heap Block) (a : ℕ) (c : Option Block)
    → (λ x. lease_of (write h a c x)) ≡ write (λ x. lease_of (h x)) a (lease_of c)
unfolding write
leases-write h a c = fun_ext λ x. ground arith

-- A state that is sound and that the pool sees as its own.
abbrev pub Shows : (Answer × Pool) → Answer → QMem → Type 0
Shows w a m = IsSound m × ((a, view m) ≡ w)

abbrev pub pool_of : Heap Lease → ℕ → ℕ → Pool
pool_of leases taken limit = record { leases = leases; taken = taken; limit = limit }

pool_eq : {f g : Heap Lease} {t u : ℕ} (l : ℕ) → f ≡ g → t ≡ u → pool_of f t l ≡ pool_of g u l
pool_eq l p q = cc

view-granted :
    (n f a s : ℕ) (m : QMem)
    → IsSound m
    → m.allocated_qubits + n ≤ m.max_qubits
    → (pointer (addr a), view (granted n f a s m)) ≡ lend n (some a) (some s) (view m)
view-granted n f a s m v fits =
    ap (λ p. (pointer (addr a), p))
      (pool_eq m.max_qubits (leases-write m.heap a _) (omega (arith, v.small)))

granted_if-lend :
    (n f : ℕ) (block state : Option ℕ) (m : QMem)
    → IsSound m
    → IsFresh block m
    → 0 < n
    → n ≤ qmem_max_qubits_per_block
    → m.allocated_qubits + n ≤ m.max_qubits
    → Returns (λ p. Shows (lend n block state (view m)) (pointer p)) (granted_if n f block state m)
granted_if-lend n f none state m v fresh lo hi fits = returns (v, refl)
granted_if-lend n f (some a) none m v fresh lo hi fits = returns (v, refl)
granted_if-lend n f (some a) (some s) m v fresh lo hi fits =
    returns (granted-IsSound n f a s m v lo hi fits fresh, view-granted n f a s m v fits)

pub alloc-pool_alloc :
    (n f : ℕ) (block state : Option ℕ) (m : QMem)
    → IsSound m
    → IsFresh block m
    → Returns (λ p. Shows (pool_alloc n block state (view m)) (pointer p)) (alloc n f block state m)
alloc-pool_alloc n f block state m v fresh =
    rw (alloc-alloc_reference n f block state m v fresh)
      (elim (Bool-cases (ltb 0 n && leb n qmem_max_qubits_per_block)) [
        | inr out ↦ rw out (returns (v, refl))
        | inl size ↦ rw size (elim (Bool-cases (leb (m.allocated_qubits + n) m.max_qubits)) [
          | inr over ↦ rw over (returns (v, refl))
          | inl fits ↦ rw fits (
              granted_if-lend n f block state m v fresh (ground arith) (ground arith)
                (ground arith))
        ])
      ])

module _ (a : ℕ) (b : Block) (m : QMem) (v : IsSound m) (e : m.heap a ≡ some b) where
  view-released : b.ref_count ≡ 1 → view (released a b m) ≡ pool_free (addr a) (view m)
  view-released one =
      rw (e, one)
        (pool_eq m.max_qubits (leases-write m.heap a none)
          (omega (arith, held-released a b m v e, v.ledger, v.within, v.small)))

  view-recounted :
      (n : ℕ)
      → view (recounted a b n m) ≡ record (view m) {
        leases = write (view m).leases a (some (record { size = b.size; references = n }));
      }
  view-recounted n = pool_eq m.max_qubits (leases-write m.heap a _) refl

  pub free-pool_free :
      Returns (λ _ m'. IsSound m' × (view m' ≡ pool_free (addr a) (view m))) (free (addr a) m)
  free-pool_free =
      let (pos, fits, _, _) = live_block a b v e in
      elim (Bool-cases (b.ref_count == 1)) [
        | inl last ↦
            let one = eqb→eq b.ref_count 1 last in
            rw (free-released a b m v.unlocked e one)
              (returns (released-IsSound a b m v e, view-released one))
        | inr more ↦ rw (free-recounted a b m v.unlocked e (ground arith) fits) (
            returns (
              recounted-IsSound a b m v e (b.ref_count - 1) (ground arith) (ground arith),
              rw (e, more) (view-recounted (b.ref_count - 1)),
            ))
      ]

  pub get-pool_get :
      b.ref_count + 1 < 2 ^ 32
      → Returns
          (λ p. Shows (pointer (addr a), pool_get (addr a) (view m)) (pointer p))
          (get (addr a) m)
  get-pool_get room = rw (get-recounted a b m e room) (
      returns (
        recounted-IsSound a b m v e (b.ref_count + 1) (omega arith) room,
        rw e (ap (λ p. (pointer (addr a), p)) (view-recounted (b.ref_count + 1))),
      ))

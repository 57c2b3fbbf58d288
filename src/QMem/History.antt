-- ===== src/QMem/History.antt =====
-- Histories of calls on the quantum memory manager, from the loading of the module on.
use ctrlxt_kernel.Base.{
  ℕ, ◌+◌, ◌≤◌, ◌<◌, ◌^◌, ◌≡◌, refl, true, false, Option, none, some, List, [], arith, has, inl, inr,
  Option-cases, Bool-cases, ltb, leb, ◌==◌, ◌&&◌, ◌-◌, if_cases, eqb→eq, eqb_refl,
}
use ctrlxt_kernel.Kernel.Pointer.{Pointer, null, addr, err_ptr}
use ctrlxt_kernel.Kernel.Run.{Run, Cmd, pure, ◌>>◌, Returns, returns, Returns-then}
use ctrlxt_kernel.Kernel.Atomic.{to_ulong}
use ctrlxt_kernel.Kernel.History.{IfOk, Lawful, run_all, run_all-keeps}
use ctrlxt_kernel.QMem.Defs.{
  Block, QMem, init, alloc, free, put, get, set_max_qubits, qmem_max_qubits,
  qmem_max_qubits_per_block, qmem_pool_size,
}
use ctrlxt_kernel.QMem.Sound.{IsSound, granted-IsSound}
use ctrlxt_kernel.QMem.Alloc.{IsFresh, granted_if, alloc-alloc_reference}
use ctrlxt_kernel.QMem.Free.{free-released, free-recounted, get-recounted}
use ctrlxt_kernel.QMem.Keep.{live_block, released-IsSound, recounted-IsSound}

-- The calls of the module's interface, each with what the outside answers.
pub data Op : Type 0 where
  allocs : (num_qubits flags : ℕ) (block state : Option ℕ) → Op
  frees puts gets : Pointer → Op
  sets_max : ℕ → Op

unfoldable pub step : Op → Cmd QMem (Unit {0})
step (allocs n f block state) = alloc n f block state >> pure tt
step (frees p) = free p
step (puts p) = put p
step (gets p) = get p >> pure tt
step (sets_max n) = set_max_qubits n >> pure tt

abbrev pub Owned : Pointer → QMem → Type 0
Owned null m = Unit {0}
Owned (addr a) m = has a m.used_blocks ≡ true
Owned (err_ptr e) m = ⊥

abbrev pub Uncrowded : Pointer → QMem → Type 0
Uncrowded null m = Unit {0}
Uncrowded (addr a) m = (b : Block) → m.heap a ≡ some b → b.ref_count + 1 < 2 ^ 32
Uncrowded (err_ptr e) m = ⊥

-- What a caller keeps to: allocations come at unused addresses, references are to allocated
-- blocks and do not overflow their count, and a maximum fits an `int`.
abbrev pub Permitted : Op → QMem → Type 0
Permitted (allocs n f block state) m = IsFresh block m
Permitted (frees p) m = Owned p m
Permitted (puts p) m = Owned p m
Permitted (gets p) m = Owned p m × Uncrowded p m
Permitted (sets_max n) m = n < 2 ^ 31

-- What a caller holds behind an allocation: a listed block, unless the pointer is an error code.
abbrev pub Holds : Pointer → QMem → Type 0
Holds null m = ⊥
Holds (addr a) m = has a m.used_blocks ≡ true
Holds (err_ptr e) m = Unit {0}

abbrev pub Granted : Pointer → QMem → Type 0
Granted p m = IsSound m × Holds p m

granted_if-Granted :
    (n f : ℕ) (block state : Option ℕ) (m : QMem)
    → IsSound m
    → IsFresh block m
    → 0 < n
    → n ≤ qmem_max_qubits_per_block
    → m.allocated_qubits + n ≤ m.max_qubits
    → Returns Granted (granted_if n f block state m)
granted_if-Granted n f none state m v fresh lo hi fits = returns (v, tt)
granted_if-Granted n f (some a) none m v fresh lo hi fits = returns (v, tt)
granted_if-Granted n f (some a) (some s) m v fresh lo hi fits =
    returns (granted-IsSound n f a s m v lo hi fits fresh, ground (arith, eqb_refl a))

pub alloc-Granted :
    (n f : ℕ) (block state : Option ℕ) (m : QMem)
    → IsSound m
    → IsFresh block m
    → Returns Granted (alloc n f block state m)
alloc-Granted n f block state m v fresh =
    let P : Run QMem Pointer → Type 0 = Returns Granted in
    rw (alloc-alloc_reference n f block state m v fresh) (
      if_cases P (ltb 0 n && leb n qmem_max_qubits_per_block) _ _
        (λ size.
          if_cases P (leb (m.allocated_qubits + n) m.max_qubits) _ _
            (λ fits.
              granted_if-Granted n f block state m v fresh (ground arith) (ground arith)
                (ground arith))
            (λ _. returns (v, tt)))
        (λ _. returns (v, tt)))

pub block_at :
    {m : QMem} (a : ℕ) → IsSound m → has a m.used_blocks ≡ true → (b : Block) × (m.heap a ≡ some b)
block_at {m} a v h = elim (Option-cases (m.heap a)) [
  | inl e ↦ absurd (rw e at (v.live a h))
  | inr (b, e) ↦ (b, e)
]

free_block-IsSound :
    (a : ℕ) (b : Block) (m : QMem)
    → IsSound m
    → m.heap a ≡ some b
    → Returns (λ _. IsSound) (free (addr a) m)
free_block-IsSound a b m v e =
    let (pos, fits, _, _) = live_block a b v e in
    elim (Bool-cases (b.ref_count == 1)) [
      | inl last ↦
          rw (free-released a b m v.unlocked e (eqb→eq b.ref_count 1 last))
            (returns (released-IsSound a b m v e))
      | inr more ↦
          rw (free-recounted a b m v.unlocked e (ground arith) fits)
            (returns (recounted-IsSound a b m v e (b.ref_count - 1) (ground arith) (ground arith)))
    ]

pub free-IsSound :
    (p : Pointer) (m : QMem) → IsSound m → Owned p m → Returns (λ _. IsSound) (free p m)
unfolding free
free-IsSound null m v h = returns v
free-IsSound (err_ptr e) m v h = absurd h
free-IsSound (addr a) m v h = let (b, e) = block_at a v h in free_block-IsSound a b m v e

put-IsSound : (p : Pointer) (m : QMem) → IsSound m → Owned p m → Returns (λ _. IsSound) (put p m)
unfolding put
put-IsSound null m v h = returns v
put-IsSound (err_ptr e) m v h = absurd h
put-IsSound (addr a) m v h = free-IsSound (addr a) m v h

get-IsSound :
    (p : Pointer) (m : QMem)
    → IsSound m
    → Owned p m
    → Uncrowded p m
    → Returns (λ _. IsSound) (get p m)
unfolding get
get-IsSound null m v h room = returns v
get-IsSound (err_ptr e) m v h room = absurd h
get-IsSound (addr a) m v h room =
    let (b, e) = block_at a v h in
    rw (get-recounted a b m e (room b e))
      (returns (recounted-IsSound a b m v e (b.ref_count + 1) (omega arith) (room b e)))

pub set_max_qubits-IsSound :
    (n : ℕ) (m : QMem) → IsSound m → n < 2 ^ 31 → Returns (λ _. IsSound) (set_max_qubits n m)
unfolding set_max_qubits
set_max_qubits-IsSound n m v fits =
    if_cases (Returns λ _. IsSound) (ltb n (to_ulong m.allocated_qubits)) _ _ (λ _. returns v)
      λ h. returns (record {
        distinct = v.distinct;
        live = v.live;
        dead = v.dead;
        ledger = v.ledger;
        same = v.same;
        within = ground (arith, v.within, v.small);
        small = ground arith;
        unlocked = v.unlocked;
      })

-- Each permitted call ends without a fault, in a state that keeps the invariant.
pub step-IsSound :
    (o : Op) (m : QMem) → IsSound m → Permitted o m → Returns (λ _. IsSound) (step o m)
unfolding step
step-IsSound (allocs n f block state) m v h =
    Returns-then (alloc-Granted n f block state m v h) (λ _ s w. returns w.0)
step-IsSound (frees p) m v h = free-IsSound p m v h
step-IsSound (puts p) m v h = put-IsSound p m v h
step-IsSound (gets p) m v (h, room) = Returns-then (get-IsSound p m v h room) (λ _ s w. returns w)
step-IsSound (sets_max n) m v h = Returns-then (set_max_qubits-IsSound n m v h) (λ _ s w. returns w)

-- The state that the loader leaves: every field of the static structure is zero.
abbrev pub unloaded : QMem
unloaded = record {
  free_blocks = [];
  used_blocks = [];
  locked = false;
  total_qubits = 0;
  allocated_qubits = 0;
  max_qubits = 0;
  memory_pool = none;
  pool_size = 0;
  heap = λ _. none;
  freed_states = [];
  freed_pools = [];
}

-- The state behind ctrlxt_qmem_init with a memory pool.
abbrev pub initial : ℕ → QMem
initial pool = record unloaded {
  max_qubits = qmem_max_qubits;
  pool_size = qmem_pool_size;
  memory_pool = some pool;
}

pub initial-IsSound : (pool : ℕ) → IsSound (initial pool)
initial-IsSound pool = record {
  distinct = tt;
  live = λ a h. cc;
  dead = λ a h. refl;
  ledger = refl;
  same = refl;
  within = omega arith;
  small = omega arith;
  unlocked = refl;
}

-- When the memory pool is allocated, ctrlxt_qmem_init and a history of permitted calls behind it
-- end without a fault in a state with the invariant.
pub init-run-IsSound :
    (pool : ℕ) (os : List Op)
    → IfOk (Lawful step Permitted os) ((init (some pool) >> pure tt) unloaded)
    → Returns (λ _. IsSound) ((init (some pool) >> run_all step os) unloaded)
unfolding init
init-run-IsSound pool os h =
    run_all-keeps step Permitted IsSound step-IsSound os (initial pool) (initial-IsSound pool) h

-- ===== src/QMem/Pool.antt =====
-- What kernel/quantum/quantum_memory.c promises its callers: a pool of leases. It knows no lists,
-- lock, flags, state pointers or second counter, and its numbers have no bounds.
pub mod Moves
pub mod Refines
use ctrlxt_kernel.Base.{
  ℕ, ◌+◌, ◌-◌, ◌≤◌, ◌<◌, ◌^◌, ◌≡◌, Option, none, some, List, [], ◌∷◌, ℤ, ltb, leb, ◌==◌, ◌&&◌,
  if◌then◌else◌,
}
use ctrlxt_kernel.Kernel.Errno.{success, enomem, einval}
use ctrlxt_kernel.Kernel.Pointer.{Pointer, null, addr, err_ptr}
use ctrlxt_kernel.Kernel.Run.{Cmd, pure, ◌>>=◌, ◌>>◌, Heap, write}
use ctrlxt_kernel.QMem.Defs.{
  Block, QMem, alloc, free, put, get, set_max_qubits, qmem_max_qubits, qmem_max_qubits_per_block,
}
use ctrlxt_kernel.QMem.History.{Op, allocs, frees, puts, gets, sets_max}

-- What a call answers.
pub data Answer : Type 0 where
  pointer : Pointer → Answer
  code : ℤ → Answer
  silent : Answer

-- A call on the code, with its answer.
unfoldable pub call : Op → Cmd QMem Answer
call (allocs n f block state) = alloc n f block state >>= λ p. pure (pointer p)
call (frees p) = free p >> pure silent
call (puts p) = put p >> pure silent
call (gets p) = get p >>= λ q. pure (pointer q)
call (sets_max n) = set_max_qubits n >>= λ r. pure (code r)

unfoldable pub call_all : List Op → Cmd QMem (List Answer)
call_all [] = pure []
call_all (o ∷ os) = call o >>= λ a. call_all os >>= λ rest. pure (a ∷ rest)

pub record Lease : Type 0 where
  pub size : ℕ
  pub references : ℕ

pub record Pool : Type 0 where
  pub leases : Heap Lease
  pub taken : ℕ
  pub limit : ℕ

abbrev pub lease_of : Option Block → Option Lease
lease_of none = none
lease_of (some b) = some (record { size = b.size; references = b.ref_count })

-- What the pool sees of the manager's state.
abbrev pub view : QMem → Pool
view m = record {
  leases = λ a. lease_of (m.heap a);
  taken = m.allocated_qubits;
  limit = m.max_qubits;
}

abbrev pub lend : ℕ → Option ℕ → Option ℕ → Pool → Answer × Pool
lend n (some a) (some s) p = (
  pointer (addr a),
  record p {
    leases = write p.leases a (some (record { size = n; references = 1 }));
    taken = p.taken + n;
  },
)
lend n (some a) none p = (pointer (err_ptr enomem), p)
lend n none state p = (pointer (err_ptr enomem), p)

abbrev pub pool_alloc : ℕ → Option ℕ → Option ℕ → Pool → Answer × Pool
pool_alloc n block state p =
    if ltb 0 n && leb n qmem_max_qubits_per_block
    then (if leb (p.taken + n) p.limit then lend n block state p else (pointer (err_ptr enomem), p))
    else (pointer (err_ptr einval), p)

-- The last reference ends the lease.
abbrev pub give_back : ℕ → Option Lease → Pool → Pool
give_back a none p = p
give_back a (some l) p =
    if l.references == 1
    then record p { leases = write p.leases a none; taken = p.taken - l.size }
    else record p { leases = write p.leases a (some (record l { references = l.references - 1 })) }

abbrev pub pool_free : Pointer → Pool → Pool
pool_free null p = p
pool_free (err_ptr e) p = p
pool_free (addr a) p = give_back a (p.leases a) p

abbrev pub share : ℕ → Option Lease → Pool → Pool
share a none p = p
share a (some l) p = record p {
  leases = write p.leases a (some (record l { references = l.references + 1 }));
}

abbrev pub pool_get : Pointer → Pool → Pool
pool_get null p = p
pool_get (err_ptr e) p = p
pool_get (addr a) p = share a (p.leases a) p

abbrev pub pool_set_max : ℕ → Pool → Answer × Pool
pool_set_max n p =
    if ltb n p.taken then (code einval, p) else (code success, record p { limit = n })

abbrev pub answer : Op → Pool → Answer × Pool
answer (allocs n f block state) p = pool_alloc n block state p
answer (frees q) p = (silent, pool_free q p)
answer (puts q) p = (silent, pool_free q p)
answer (gets q) p = (pointer q, pool_get q p)
answer (sets_max n) p = pool_set_max n p

abbrev pub answer_all : List Op → Pool → List Answer × Pool
answer_all [] p = ([], p)
answer_all (o ∷ os) p = let rest = answer_all os (answer o p).1 in ((answer o p).0 ∷ rest.0, rest.1)

-- A caller frees and shares what is leased, shares it fewer than 2 ^ 32 times, and sets a maximum
-- that fits an `int`; an allocation comes at an address that is not leased.
abbrev pub Leased : Pointer → Pool → Type 0
Leased null p = Unit {0}
Leased (addr a) p = (l : Lease) × (p.leases a ≡ some l)
Leased (err_ptr e) p = ⊥

abbrev pub Sharable : Pointer → Pool → Type 0
Sharable null p = Unit {0}
Sharable (addr a) p = (l : Lease) × (p.leases a ≡ some l) × (l.references + 1 < 2 ^ 32)
Sharable (err_ptr e) p = ⊥

abbrev pub Allowed : Op → Pool → Type 0
Allowed (allocs n f none state) p = Unit {0}
Allowed (allocs n f (some a) state) p = p.leases a ≡ none
Allowed (frees q) p = Leased q p
Allowed (puts q) p = Leased q p
Allowed (gets q) p = Sharable q p
Allowed (sets_max n) p = n < 2 ^ 31

abbrev pub AllAllowed : List Op → Pool → Type 0
AllAllowed [] p = Unit {0}
AllAllowed (o ∷ os) p = Allowed o p × AllAllowed os (answer o p).1

abbrev pub empty_pool : Pool
empty_pool = record { leases = λ _. none; taken = 0; limit = qmem_max_qubits }

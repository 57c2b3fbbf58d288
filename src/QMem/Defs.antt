-- ===== src/QMem/Defs.antt =====
-- State and operations of kernel/quantum/quantum_memory.c. The field private_data of a block is
-- never written after kzalloc and is left out; list heads are the positions in the lists.
use ctrlxt_kernel.Base.{
  ℕ, ◌+◌, ◌*◌, ◌%◌, ◌^◌, Bool, true, false, ◌||◌, Option, none, some, List, [], ◌∷◌, ℤ, ltb, ◌==◌,
  if◌then◌else◌, erase,
}
use ctrlxt_kernel.Kernel.Errno.{success, enomem, einval}
use ctrlxt_kernel.Kernel.Pointer.{Pointer, null, addr, err_ptr}
use ctrlxt_kernel.Kernel.Atomic.{to_ulong, to_int, atomic_add, atomic_sub, atomic_inc, atomic_dec}
use ctrlxt_kernel.Kernel.Run.{ok, fault, Cmd, pure, ◌>>=◌, ◌>>◌, modify, Heap, write}

abbrev pub qmem_pool_size : ℕ
qmem_pool_size = 1024 * 1024

abbrev pub qmem_max_qubits : ℕ
qmem_max_qubits = 1024

abbrev pub qmem_max_qubits_per_block : ℕ
qmem_max_qubits_per_block = 64

pub record Block : Type 0 where
  pub state : Option ℕ
  pub size : ℕ
  pub flags : ℕ
  pub ref_count : ℕ

-- What kzalloc returns.
abbrev pub zeroed : Block
zeroed = record { state = none; size = 0; flags = 0; ref_count = 0 }

pub record QMem : Type 0 where
  pub free_blocks : List ℕ
  pub used_blocks : List ℕ
  pub locked : Bool
  pub total_qubits : ℕ
  pub allocated_qubits : ℕ
  pub max_qubits : ℕ
  pub memory_pool : Option ℕ
  pub pool_size : ℕ
  pub heap : Heap Block
  pub freed_states : List ℕ
  pub freed_pools : List ℕ

abbrev pub lock : Cmd QMem (Unit {0})
lock m = if m.locked then fault else ok tt (record m { locked = true })

abbrev pub unlock : Cmd QMem (Unit {0})
unlock m = ok tt (record m { locked = false })

-- `*block`
abbrev pub load : ℕ → Cmd QMem Block
load a m = elim (m.heap a) [ none ↦ fault | some b ↦ ok b m ]

abbrev pub store : ℕ → Option Block → Cmd QMem (Unit {0})
store a c = modify λ m. record m { heap = write m.heap a c }

unfoldable pub kfree_block : ℕ → Cmd QMem (Unit {0})
kfree_block a = do load a; store a none

unfoldable pub state_free : Option ℕ → Cmd QMem (Unit {0})
state_free none = pure tt
state_free (some s) = modify λ m. record m { freed_states = s ∷ m.freed_states }

-- ctrlxt_qmem_init; `pool` is what kzalloc returns for the memory pool.
unfoldable pub init : Option ℕ → Cmd QMem ℤ
init pool m =
    (do
      modify λ m. record m {
        free_blocks = [];
        used_blocks = [];
        locked = false;
        total_qubits = 0;
        allocated_qubits = 0;
        max_qubits = to_int qmem_max_qubits;
        pool_size = qmem_pool_size;
        memory_pool = pool;
      }
      elim pool [ none ↦ pure enomem | some p ↦ pure success ])
      m

-- The part of ctrlxt_qmem_alloc behind its two checks, under the lock.
unfoldable pub alloc_locked : ℕ → ℕ → Option ℕ → Option ℕ → Cmd QMem Pointer
alloc_locked num_qubits flags block state = do
  lock
  elim block [
    | none ↦ do unlock; pure (err_ptr enomem)
    | some a ↦ do
      store a (some zeroed)
      elim state [
        | none ↦ do kfree_block a; unlock; pure (err_ptr enomem)
        | some s ↦ do
          store a
              (some (record { state = some s; size = num_qubits; flags = flags; ref_count = 1 }))
          modify λ m. record m {
            used_blocks = a ∷ m.used_blocks;
            total_qubits = atomic_add num_qubits m.total_qubits;
            allocated_qubits = atomic_add num_qubits m.allocated_qubits;
          }
          unlock
          pure (addr a)
      ]
  ]

-- The test that there are too few qubits left; it runs without the lock.
unfoldable pub is_exhausted : ℕ → QMem → Bool
is_exhausted num_qubits m =
    ltb (to_ulong m.max_qubits) ((to_ulong m.allocated_qubits + num_qubits) % 2 ^ 64)

-- ctrlxt_qmem_alloc; `block` and `state` are what the two allocations return.
unfoldable pub alloc : ℕ → ℕ → Option ℕ → Option ℕ → Cmd QMem Pointer
alloc num_qubits flags block state m =
    if (num_qubits == 0) || ltb qmem_max_qubits_per_block num_qubits
    then ok (err_ptr einval) m
    else if is_exhausted num_qubits m
    then ok (err_ptr enomem) m
    else alloc_locked num_qubits flags block state m

-- The body of ctrlxt_qmem_free behind its test of the reference count.
unfoldable pub release_block : ℕ → Block → Cmd QMem (Unit {0})
unfolding kfree_block state_free
release_block a b = do
  modify λ m. record m { used_blocks = erase a m.used_blocks }
  state_free b.state
  modify λ m. record m {
    total_qubits = atomic_sub b.size m.total_qubits;
    allocated_qubits = atomic_sub b.size m.allocated_qubits;
  }
  kfree_block a

-- ctrlxt_qmem_free
unfoldable pub free : Pointer → Cmd QMem (Unit {0})
free null = pure tt
free (err_ptr e) = λ m. fault
free (addr a) = do
  lock
  b ← load a
  let b' = record b { ref_count = atomic_dec b.ref_count }
  store a (some b')
  if b'.ref_count == 0 then release_block a b' else pure tt
  unlock

-- ctrlxt_qmem_get
unfoldable pub get : Pointer → Cmd QMem Pointer
get null = pure null
get (err_ptr e) = λ m. fault
get (addr a) = do
  b ← load a
  store a (some (record b { ref_count = atomic_inc b.ref_count }))
  pure (addr a)

-- ctrlxt_qmem_put
unfoldable pub put : Pointer → Cmd QMem (Unit {0})
put null = pure tt
put (addr a) = free (addr a)
put (err_ptr e) = free (err_ptr e)

pub record Stats : Type 0 where
  pub total_qubits : ℕ
  pub allocated_qubits : ℕ
  pub max_qubits : ℕ
  pub free_qubits : ℕ

-- ctrlxt_qmem_get_stats: the structure that the caller's pointer shows, if it is not NULL.
unfoldable pub get_stats : QMem → Option Stats → Option Stats
get_stats m none = none
get_stats m (some old) = some (record {
  total_qubits = m.total_qubits;
  allocated_qubits = m.allocated_qubits;
  max_qubits = m.max_qubits;
  free_qubits = atomic_sub m.allocated_qubits m.max_qubits;
})

-- ctrlxt_qmem_set_max_qubits: the argument is an `unsigned long`, the counter an `int`.
unfoldable pub set_max_qubits : ℕ → Cmd QMem ℤ
set_max_qubits max_qubits m =
    if ltb max_qubits (to_ulong m.allocated_qubits)
    then ok einval m
    else ok success (record m { max_qubits = to_int max_qubits })

-- The loop of qmem_exit over the used blocks.
unfoldable pub exit_blocks : List ℕ → Cmd QMem (Unit {0})
unfolding kfree_block state_free
exit_blocks [] = pure tt
exit_blocks (a ∷ rest) = do
  modify λ m. record m { used_blocks = erase a m.used_blocks }
  b ← load a
  state_free b.state
  kfree_block a
  exit_blocks rest

unfoldable pub pool_free : Option ℕ → Cmd QMem (Unit {0})
pool_free none = pure tt
pool_free (some p) = modify λ m. record m { freed_pools = p ∷ m.freed_pools }

-- qmem_exit
unfoldable pub exit : Cmd QMem (Unit {0})
unfolding exit_blocks pool_free
exit m = (do lock; exit_blocks m.used_blocks; pool_free m.memory_pool; unlock) m

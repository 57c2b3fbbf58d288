-- ===== src/QMem/Sound.antt =====
-- The invariant of the quantum memory manager.
use ctrlxt_kernel.Base.{
  ℕ, ◌+◌, ◌≤◌, ◌<◌, ◌^◌, ◌≡◌, refl, true, false, Option, none, some, ◌∷◌, arith, has, Distinct,
  Bool-cases, inl, inr,
}
use ctrlxt_kernel.Kernel.Run.{ok, write, write-write}
use ctrlxt_kernel.Kernel.Pointer.{addr}
use ctrlxt_kernel.Kernel.Atomic.{atomic_add}
use ctrlxt_kernel.QMem.Defs.{Block, QMem, alloc_locked, qmem_max_qubits_per_block}
use ctrlxt_kernel.QMem.Count.{held, size_of, sum_of-write_new}

-- What an allocated block looks like.
abbrev pub IsBlock : Option Block → Type 0
IsBlock none = ⊥
IsBlock (some b) =
    (0 < b.ref_count) × (b.ref_count < 2 ^ 32) × (0 < b.size) × (b.size ≤ qmem_max_qubits_per_block)

-- The used list holds each allocated block once and nothing else, both qubit counters are the sum
-- of its sizes, the sum is within the maximum, and the lock is free.
pub record IsSound (m : QMem) : Type 0 where
  pub distinct : Distinct m.used_blocks
  pub live : (a : ℕ) → has a m.used_blocks ≡ true → IsBlock (m.heap a)
  pub dead : (a : ℕ) → has a m.used_blocks ≡ false → m.heap a ≡ none
  pub ledger : m.allocated_qubits ≡ held m.heap m.used_blocks
  pub same : m.total_qubits ≡ m.allocated_qubits
  pub within : m.allocated_qubits ≤ m.max_qubits
  pub small : m.max_qubits < 2 ^ 31
  pub unlocked : m.locked ≡ false

-- The state behind a successful allocation.
abbrev pub granted : ℕ → ℕ → ℕ → ℕ → QMem → QMem
granted num_qubits flags a s m = record m {
  used_blocks = a ∷ m.used_blocks;
  locked = false;
  total_qubits = atomic_add num_qubits m.total_qubits;
  allocated_qubits = atomic_add num_qubits m.allocated_qubits;
  heap =
      write m.heap a
        (some (record { state = some s; size = num_qubits; flags = flags; ref_count = 1 }));
}

pub alloc_locked-granted :
    (num_qubits flags a s : ℕ) (m : QMem)
    → m.locked ≡ false
    → alloc_locked num_qubits flags (some a) (some s) m
      ≡ ok (addr a) (granted num_qubits flags a s m)
unfolding alloc_locked
alloc_locked-granted n f a s m e = rw e (rw write-write)

abbrev pub new_block : ℕ → ℕ → ℕ → Block
new_block num_qubits flags s = record {
  state = some s;
  size = num_qubits;
  flags = flags;
  ref_count = 1;
}

-- An address that holds nothing is on no list of live blocks.
pub not-has_of_none : {m : QMem} (a : ℕ) → IsSound m → m.heap a ≡ none → has a m.used_blocks ≡ false
not-has_of_none {m} a v fresh = elim (Bool-cases (has a m.used_blocks)) [
  | inl h ↦ ground (arith, v.live a h)
  | inr h ↦ h
]

module _ (num_qubits flags a s : ℕ) (m : QMem) where
  granted-ledger :
      IsSound m
      → num_qubits ≤ qmem_max_qubits_per_block
      → m.allocated_qubits + num_qubits ≤ m.max_qubits
      → m.heap a ≡ none
      → (granted num_qubits flags a s m).allocated_qubits
        ≡ held (granted num_qubits flags a s m).heap (a ∷ m.used_blocks)
  granted-ledger v hi fits fresh = omega (
    arith,
    v.ledger,
    v.small,
    sum_of-write_new size_of m.heap a (some (new_block num_qubits flags s)) m.used_blocks
        (not-has_of_none a v fresh),
  )

  pub granted-IsSound :
      IsSound m
      → 0 < num_qubits
      → num_qubits ≤ qmem_max_qubits_per_block
      → m.allocated_qubits + num_qubits ≤ m.max_qubits
      → m.heap a ≡ none
      → IsSound (granted num_qubits flags a s m)
  unfolding write
  granted-IsSound v lo hi fits fresh = record {
    distinct = (not-has_of_none a v fresh, v.distinct);
    live = λ x h. ground (arith, v.live x);
    dead = λ x h. ground (arith, v.dead x);
    ledger = granted-ledger v hi fits fresh;
    same = ground (arith, v.same);
    within = ground (arith, v.within, v.small);
    small = v.small;
    unlocked = refl;
  }

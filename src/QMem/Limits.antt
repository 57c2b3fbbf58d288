-- ===== src/QMem/Limits.antt =====
-- The maximum of the quantum memory manager: where it is kept, and two ways past it.
use ctrlxt_kernel.Base.{ℕ, ◌+◌, ◌%◌, ◌≤◌, ◌<◌, ◌^◌, ◌≡◌, refl, false, some, arith}
use ctrlxt_kernel.Kernel.Errno.{success}
use ctrlxt_kernel.Kernel.Pointer.{addr}
use ctrlxt_kernel.Kernel.Run.{ok, ◌>>◌}
use ctrlxt_kernel.QMem.Defs.{
  QMem, Stats, get_stats, alloc_locked, is_exhausted, set_max_qubits, qmem_max_qubits_per_block,
}
use ctrlxt_kernel.QMem.Sound.{IsSound, granted, alloc_locked-granted}

-- In a state with the invariant, a maximum that is no less than the allocated qubits, but whose
-- low 32 bits are, is accepted and leaves more qubits allocated than the maximum allows.
pub set_max_qubits_truncates :
    (n : ℕ) (m : QMem)
    → IsSound m
    → m.allocated_qubits ≤ n
    → n % 2 ^ 32 < m.allocated_qubits
    → (m' : QMem) × (set_max_qubits n m ≡ ok success m')
      × (m'.allocated_qubits ≡ m.allocated_qubits)
      × (m'.max_qubits < m'.allocated_qubits)
unfolding set_max_qubits
set_max_qubits_truncates n m v big low =
    (record m { max_qubits = n % 2 ^ 32 }, ground (arith, v.within, v.small), refl, low)

-- A maximum that reads as a negative `int` switches the check of ctrlxt_qmem_alloc off.
pub set_max_qubits_unbounded :
    (n k : ℕ) (m : QMem)
    → IsSound m
    → 2 ^ 31 ≤ n % 2 ^ 32
    → k ≤ qmem_max_qubits_per_block
    → (m' : QMem) × (set_max_qubits n m ≡ ok success m') × (is_exhausted k m' ≡ false)
unfolding set_max_qubits is_exhausted
set_max_qubits_unbounded n k m v high size = (
  record m { max_qubits = n % 2 ^ 32 },
  ground (arith, v.within, v.small),
  ground (arith, v.within, v.small),
)

-- In a state with the invariant, two callers of ctrlxt_qmem_alloc that each pass the check, which
-- runs without the lock, before either takes the lock are both granted, though together they ask
-- for more than the maximum: more qubits are then allocated than it allows.
pub alloc_race :
    (n k f g a b s t : ℕ) (m : QMem)
    → IsSound m
    → n ≤ qmem_max_qubits_per_block
    → k ≤ qmem_max_qubits_per_block
    → is_exhausted n m ≡ false
    → is_exhausted k m ≡ false
    → m.max_qubits < m.allocated_qubits + n + k
    → (m' : QMem) × ((alloc_locked n f (some a) (some s) >> alloc_locked k g (some b) (some t)) m
        ≡ ok (addr b) m')
      × (m'.max_qubits < m'.allocated_qubits)
unfolding is_exhausted
alloc_race n k f g a b s t m v hn hk pn pk over = (
  granted k g b t (granted n f a s m),
  rw (alloc_locked-granted n f a s m v.unlocked)
      (alloc_locked-granted k g b t (granted n f a s m) refl),
  ground (arith, v.within, v.small),
)

-- The statistics of a sound manager: what is free and what is allocated make up the maximum.
pub get_stats_total :
    (m : QMem) (old : Stats)
    → IsSound m
    → (s : Stats) × (get_stats m (some old) ≡ some s)
      × (s.allocated_qubits + s.free_qubits ≡ s.max_qubits)
      × (s.total_qubits ≡ s.allocated_qubits)
unfolding get_stats
get_stats_total m old v = (_, refl, omega (arith, v.within, v.small), v.same)

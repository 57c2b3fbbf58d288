-- ===== src/QMem/Alloc.antt =====
-- ctrlxt_qmem_alloc against a reference: when a block is granted, and what each failure leaves.
use ctrlxt_kernel.Base.{
  ℕ, ◌+◌, ◌≡◌, false, ◌&&◌, Option, none, some, arith, ltb, leb, if◌then◌else◌,
}
use ctrlxt_kernel.Kernel.Errno.{enomem, einval}
use ctrlxt_kernel.Kernel.Pointer.{Pointer, addr, err_ptr}
use ctrlxt_kernel.Kernel.Run.{Run, ok, write-write, write_self, write-read}
use ctrlxt_kernel.QMem.Defs.{
  QMem, alloc, alloc_locked, is_exhausted, kfree_block, zeroed, qmem_max_qubits_per_block,
}
use ctrlxt_kernel.QMem.Sound.{IsSound, granted, alloc_locked-granted}

-- kzalloc returns an address that holds no object.
abbrev pub IsFresh : Option ℕ → QMem → Type 0
IsFresh none m = Unit {0}
IsFresh (some a) m = m.heap a ≡ none

-- What an allocation should do: grant a block when both allocations succeeded, else leave all.
abbrev pub granted_if : ℕ → ℕ → Option ℕ → Option ℕ → QMem → Run QMem Pointer
granted_if n f (some a) (some s) m = ok (addr a) (granted n f a s m)
granted_if n f (some a) none m = ok (err_ptr enomem) m
granted_if n f none state m = ok (err_ptr enomem) m

abbrev pub alloc_reference : ℕ → ℕ → Option ℕ → Option ℕ → QMem → Run QMem Pointer
alloc_reference n f block state m =
    if ltb 0 n && leb n qmem_max_qubits_per_block
    then (if leb (m.allocated_qubits + n) m.max_qubits
        then granted_if n f block state m
        else ok (err_ptr enomem) m)
    else ok (err_ptr einval) m

pub alloc_locked-granted_if :
    (n f : ℕ) (block state : Option ℕ) (m : QMem)
    → m.locked ≡ false
    → IsFresh block m
    → alloc_locked n f block state m ≡ granted_if n f block state m
unfolding alloc_locked kfree_block
alloc_locked-granted_if n f none state m e fresh = rw e
alloc_locked-granted_if n f (some a) none m e fresh = ground (
  arith,
  write-read m.heap a (some zeroed),
  write-write m.heap a (some zeroed) none,
  write_self m.heap a none fresh,
)
alloc_locked-granted_if n f (some a) (some s) m e fresh = alloc_locked-granted n f a s m e

-- In a state with the invariant, and where kzalloc returns an unused address, ctrlxt_qmem_alloc is
-- the reference: its checks are those on numbers without bounds.
pub alloc-alloc_reference :
    (n f : ℕ) (block state : Option ℕ) (m : QMem)
    → IsSound m
    → IsFresh block m
    → alloc n f block state m ≡ alloc_reference n f block state m
unfolding alloc is_exhausted
alloc-alloc_reference n f block state m v fresh =
    ground (arith, alloc_locked-granted_if n f block state m v.unlocked fresh, v.within, v.small)

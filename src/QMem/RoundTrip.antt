-- ===== src/QMem/RoundTrip.antt =====
-- Calls that undo one another: get and put, alloc and free.
use ctrlxt_kernel.Base.{ℕ, ◌+◌, ◌-◌, ◌≤◌, ◌<◌, ◌^◌, ◌≡◌, refl, none, some, ◌∷◌, arith}
use ctrlxt_kernel.Kernel.Pointer.{addr}
use ctrlxt_kernel.Kernel.Atomic.{atomic_add, atomic_sub}
use ctrlxt_kernel.Kernel.Run.{ok, ◌>>=◌, write-write, write_self, write-read}
use ctrlxt_kernel.QMem.Defs.{Block, QMem, alloc, free, put, get, qmem_max_qubits_per_block}
use ctrlxt_kernel.QMem.Sound.{IsSound, granted, new_block, not-has_of_none}
use ctrlxt_kernel.QMem.Alloc.{alloc-alloc_reference}
use ctrlxt_kernel.QMem.Free.{recounted, free-released, free-recounted, get-recounted}
use ctrlxt_kernel.QMem.Keep.{live_block}

-- In a state with the invariant, a reference to an allocated block that is taken and put back
-- leaves the manager exactly as it was, if the count has room for it.
pub put-get :
    (a : ℕ) (b : Block) (m : QMem)
    → IsSound m
    → m.heap a ≡ some b
    → b.ref_count + 1 < 2 ^ 32
    → (get (addr a) >>= put) m ≡ ok tt m
unfolding put
put-get a b m v e room =
    let (pos, _, _, _) = live_block a b v e in
    let b' = record b { ref_count = b.ref_count + 1 } in
    let m' = recounted a b (b.ref_count + 1) m in
    let same : b.ref_count + 1 - 1 ≡ b.ref_count = omega arith in
    rw
      (
        get-recounted a b m e room,
        free-recounted a b' m' v.unlocked (write-read m.heap a (some b')) (omega arith) room,
        write-write,
        same,
        write_self m.heap a (some b) e,
      )
      refl

-- An allocation that fits is granted.
pub alloc-granted :
    (n f a s : ℕ) (m : QMem)
    → IsSound m
    → 0 < n
    → n ≤ qmem_max_qubits_per_block
    → m.allocated_qubits + n ≤ m.max_qubits
    → m.heap a ≡ none
    → alloc n f (some a) (some s) m ≡ ok (addr a) (granted n f a s m)
alloc-granted n f a s m v lo hi fits fresh =
    rw (alloc-alloc_reference n f (some a) (some s) m v fresh) (ground arith)

-- In a state with the invariant, a block of 1 to 64 qubits that fits the maximum, allocated at an
-- unused address and then freed, leaves everything as it was, but that its quantum state is freed.
pub free-alloc :
    (n f a s : ℕ) (m : QMem)
    → IsSound m
    → 0 < n
    → n ≤ qmem_max_qubits_per_block
    → m.allocated_qubits + n ≤ m.max_qubits
    → m.heap a ≡ none
    → (alloc n f (some a) (some s) >>= free) m
      ≡ ok tt (record m { freed_states = s ∷ m.freed_states })
free-alloc n f a s m v lo hi fits fresh =
    let m' = granted n f a s m in
    let b = new_block n f s in
    let out = not-has_of_none a v fresh in
    let back : atomic_sub n (atomic_add n m.allocated_qubits) ≡ m.allocated_qubits =
      omega (arith, v.within, v.small) in
    let back' : atomic_sub n (atomic_add n m.total_qubits) ≡ m.total_qubits =
      omega (arith, v.same, v.within, v.small) in
    rw
      (
        alloc-granted n f a s m v lo hi fits fresh,
        free-released a b m' refl (write-read m.heap a (some b)) refl,
      )
      (ground (
        arith,
        back,
        back',
        write-write m.heap a (some b) none,
        write_self m.heap a none fresh,
        v.unlocked,
      ))

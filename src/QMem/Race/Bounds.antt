-- ===== src/QMem/Race/Bounds.antt =====
-- How far racing allocations get past the maximum.
use ctrlxt_kernel.Base.{
  ℕ, ◌+◌, ◌∙◌, ◌-◌, ◌*◌, ◌≤◌, ◌<◌, ◌^◌, ◌≡◌, refl, false, Option, none, some, set, length, total,
  length-set, total-set, zero, suc, arith,
}
use ctrlxt_kernel.Kernel.Pointer.{Pointer}
use ctrlxt_kernel.Kernel.Run.{ok, Returns, returns, Returns-ok}
use ctrlxt_kernel.QMem.Defs.{QMem, alloc_locked, is_exhausted, qmem_max_qubits_per_block}
use ctrlxt_kernel.QMem.Alloc.{IsFresh, granted_if, alloc_locked-granted_if}
use ctrlxt_kernel.QMem.Sound.{IsSound, granted-IsSound}
use ctrlxt_kernel.QMem.Race.{
  idle, admitted, is_refused, System, At, Step, checks, commits, frees, gets, Reach, here, next,
  pending, all_idle, initial,
}
use ctrlxt_kernel.QMem.Race.Frees.{raised, Frees, free-Frees, get-Frees}
use ctrlxt_kernel.QMem.Race.Waiting.{misfit, total-pending-idle}

-- What holds in each state that `n` threads reach, where no more than `cap` qubits fit.
record IsBounded (n max cap : ℕ) (s : System) : Type 0 where
  sound : IsSound (raised cap s.qmem)
  maximum : s.qmem.max_qubits ≡ max
  many : length s.threads ≡ n
  fit : total misfit s.threads ≡ 0
  within : s.qmem.allocated_qubits + total pending s.threads ≤ cap

-- What an allocation of `n` qubits does under the lock.
abbrev Grows : (n cap : ℕ) → QMem → QMem → Type 0
Grows n cap m l =
    IsSound (raised cap l)
    × (l.allocated_qubits ≤ m.allocated_qubits + n)
    × (l.max_qubits ≡ m.max_qubits)

granted_if-Grows :
    (n f cap : ℕ) (block state : Option ℕ) (m : QMem)
    → IsSound (raised cap m)
    → IsFresh block m
    → 0 < n
    → n ≤ qmem_max_qubits_per_block
    → m.allocated_qubits + n ≤ cap
    → Returns (λ _. Grows n cap m) (granted_if n f block state m)
granted_if-Grows n f cap none state m v fresh lo hi fits = returns (v, omega arith, refl)
granted_if-Grows n f cap (some a) none m v fresh lo hi fits = returns (v, omega arith, refl)
granted_if-Grows n f cap (some a) (some s) m v fresh lo hi fits =
    returns
      (granted-IsSound n f a s (raised cap m) v lo hi fits fresh, omega (arith, v.small), refl)

alloc_locked-Grows :
    (n f cap : ℕ) (block state : Option ℕ) (m : QMem)
    → IsSound (raised cap m)
    → IsFresh block m
    → 0 < n
    → n ≤ qmem_max_qubits_per_block
    → m.allocated_qubits + n ≤ cap
    → Returns (λ _. Grows n cap m) (alloc_locked n f block state m)
alloc_locked-Grows n f cap block state m v fresh lo hi fits =
    rw (alloc_locked-granted_if n f block state m v.unlocked fresh)
      (granted_if-Grows n f cap block state m v fresh lo hi fits)

module _ (n max : ℕ) (small : max + qmem_max_qubits_per_block * n < 2 ^ 31) where
  abbrev cap : ℕ
  cap = max + qmem_max_qubits_per_block * (n - 1)

  -- A thread that is let through asks for a size that fits a block and what was then free.
  admits :
      (k : ℕ) (m : QMem)
      → is_refused k m ≡ false
      → m.max_qubits ≡ max
      → m.allocated_qubits ≤ cap
      → (0 < k) × (k ≤ qmem_max_qubits_per_block) × (m.allocated_qubits + k ≤ max)
  unfolding is_refused is_exhausted
  admits k m h e low = ground (arith, small)

  checks-IsBounded :
      (s : System) (i k : ℕ)
      → At s i idle
      → is_refused k s.qmem ≡ false
      → IsBounded n max cap s
      → IsBounded n max cap (record s { threads = set s.threads i (admitted k) })
  checks-IsBounded s i k e h v =
      let (lo, hi, room) = admits k s.qmem h v.maximum (omega (arith, v.within)) in
      let others = total-pending-idle s.threads i v.fit e in
      let t = total-set pending s.threads i idle (admitted k) e in
      record {
        sound = v.sound;
        maximum = v.maximum;
        many = omega (arith, length-set s.threads i (admitted k), v.many);
        fit = ground (arith, v.fit, total-set misfit s.threads i idle (admitted k) e);
        within = omega (arith, v.many);
      }

  commits-IsBounded :
      (s : System) (i k f : ℕ) (block state : Option ℕ) (p : Pointer) (m : QMem)
      → At s i (admitted k)
      → IsFresh block s.qmem
      → alloc_locked k f block state s.qmem ≡ ok p m
      → IsBounded n max cap s
      → IsBounded n max cap (record { qmem = m; threads = set s.threads i idle })
  commits-IsBounded s i k f block state p m e fresh run v =
      let t = total-set pending s.threads i (admitted k) idle e in
      let z = total-set misfit s.threads i (admitted k) idle e in
      let grown =
        alloc_locked-Grows k f cap block state s.qmem v.sound fresh (ground (arith, v.fit))
          (ground (arith, v.fit)) (omega (arith, v.within)) in
      let (sound, more, same) = Returns-ok grown run in
      record {
        sound = sound;
        maximum = same ∙ v.maximum;
        many = omega (arith, length-set s.threads i idle, v.many);
        fit = ground (arith, v.fit);
        within = omega (arith, v.within);
      }

  Frees-IsBounded :
      (s : System) (m : QMem)
      → Frees cap s.qmem m
      → IsBounded n max cap s
      → IsBounded n max cap (record s { qmem = m })
  Frees-IsBounded s m (sound, less, same) v = record {
    sound = sound;
    maximum = same ∙ v.maximum;
    many = v.many;
    fit = v.fit;
    within = omega (arith, v.within);
  }

  Step-IsBounded : {s t : System} → Step s t → IsBounded n max cap s → IsBounded n max cap t
  Step-IsBounded (checks s i k e h) v = checks-IsBounded s i k e h v
  Step-IsBounded (commits s i k f block state p m e fresh run) v =
      commits-IsBounded s i k f block state p m e fresh run v
  Step-IsBounded (frees s p m own run) v =
      Frees-IsBounded s m (Returns-ok (free-Frees cap s.qmem v.sound p own) run) v
  Step-IsBounded (gets s p q m own room run) v =
      Frees-IsBounded s m (Returns-ok (get-Frees cap s.qmem v.sound p own room) run) v

  Reach-IsBounded : {s t : System} → IsBounded n max cap s → Reach s t → IsBounded n max cap t
  Reach-IsBounded v here = v
  Reach-IsBounded v (next r st) = Step-IsBounded st (Reach-IsBounded v r)

raised-IsSound :
    (cap : ℕ) (m : QMem) → IsSound m → m.max_qubits ≤ cap → cap < 2 ^ 31 → IsSound (raised cap m)
raised-IsSound cap m v high low = record {
  distinct = v.distinct;
  live = v.live;
  dead = v.dead;
  ledger = v.ledger;
  same = v.same;
  within = omega (arith, v.within);
  small = low;
  unlocked = v.unlocked;
}

initial-IsBounded :
    (n : ℕ) (m : QMem)
    → IsSound m
    → m.max_qubits + qmem_max_qubits_per_block * n < 2 ^ 31
    → IsBounded n m.max_qubits (m.max_qubits + qmem_max_qubits_per_block * (n - 1)) (initial n m)
initial-IsBounded n m v small = record {
  sound = raised-IsSound _ m v (omega arith) (omega arith);
  maximum = refl;
  many = length-all_idle n;
  fit = misfit-all_idle n;
  within = omega (arith, pending-all_idle n, v.within);
}
  where
    length-all_idle : (n : ℕ) → length (all_idle n) ≡ n
    length-all_idle zero = refl
    length-all_idle (suc n) = omega (arith, length-all_idle n)

    misfit-all_idle : (n : ℕ) → total misfit (all_idle n) ≡ 0
    misfit-all_idle zero = refl
    misfit-all_idle (suc n) = omega (arith, misfit-all_idle n)

    pending-all_idle : (n : ℕ) → total pending (all_idle n) ≡ 0
    pending-all_idle zero = refl
    pending-all_idle (suc n) = omega (arith, pending-all_idle n)

-- From a state with the invariant, in any interleaving of the calls of n threads on allocated
-- blocks, whose counts do not overflow, and with allocations at unused addresses, the allocated
-- qubits pass the maximum by at most the largest block for each thread but one, if the maximum and
-- n largest blocks stay below 2 ^ 31. One thread never passes it.
pub Reach-bounded :
    (n : ℕ) (m : QMem) (s : System)
    → IsSound m
    → m.max_qubits + qmem_max_qubits_per_block * n < 2 ^ 31
    → Reach (initial n m) s
    → s.qmem.allocated_qubits ≤ m.max_qubits + qmem_max_qubits_per_block * (n - 1)
Reach-bounded n m s v small r =
    let w = Reach-IsBounded n m.max_qubits small (initial-IsBounded n m v small) r in
    omega (arith, w.within)

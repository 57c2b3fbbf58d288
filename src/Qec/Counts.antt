-- ===== src/Qec/Counts.antt =====
-- The counters of error correction and the rate that is computed from them.
use ctrlxt_kernel.Base.{
  ℕ, ◌+◌, ◌*◌, ◌≤◌, ◌<◌, ◌^◌, ◌/◌, ◌≡◌, false, List, [], ◌∷◌, Option, some, arith, length, suc,
}
use ctrlxt_kernel.Kernel.Run.{
  ok, fault, Cmd, pure, ◌>>◌, Returns, returns, Returns-then, Returns-mono,
}
use ctrlxt_kernel.Kernel.Slot.{live}
use ctrlxt_kernel.Kernel.Errno.{success}
use ctrlxt_kernel.Quantum.{Quantum}
use ctrlxt_kernel.Qec.{Qec, Stats, get_stats, init, apply}
use ctrlxt_kernel.Qec.Setup.{Started-of_success}
use ctrlxt_kernel.Qec.Apply.{IsReady, apply-Applied}

-- The structure is ready, the lock free, and no more corrections than errors are counted.
pub record IsSound {S : Type 0} (bound : ℕ) (m : Qec S) : Type 0 where
  pub ready : IsReady m
  pub unlocked : m.locked ≡ false
  pub ordered : m.correction_count ≤ m.error_count
  pub bounded : m.error_count ≤ bound

weaken : {S : Type 0} (b c : ℕ) (m : Qec S) → b ≤ c → IsSound b m → IsSound c m
weaken b c m le v = record {
  ready = v.ready;
  unlocked = v.unlocked;
  ordered = v.ordered;
  bounded = omega (arith, v.bounded);
}

rate_le : (c e : ℕ) → c ≤ e → 0 < e → c * 100 / e ≤ 100
rate_le c e le pos = grind arith

-- With as few errors as this the product in ctrlxt_qec_get_stats does not overflow.
pub get_stats_rate :
    {S : Type 0} (m : Qec S) (old : Stats)
    → m.correction_count ≤ m.error_count
    → 0 < m.error_count
    → m.error_count * 100 < 2 ^ 31
    → (s : Stats) × (get_stats (some old) m ≡ ok (some s) m) × (s.success_rate ≤ 100)
unfolding get_stats
get_stats_rate m old le pos small =
    let rate : Stats = record {
      error_count = m.error_count;
      correction_count = m.correction_count;
      success_rate = m.correction_count * 100 / m.error_count;
    } in
    (rate, ground arith, rate_le m.correction_count m.error_count le pos)

module _ (q : Quantum) where
  open q use {State}

  pub apply_all : List State → Cmd (Qec State) (Unit {0})
  apply_all [] = pure tt
  apply_all (st ∷ rest) = apply q (live st) >> apply_all rest

  apply-IsSound :
      (st : State) (b : ℕ) (m : Qec State)
      → IsSound b m
      → b + 1 < 2 ^ 32
      → Returns (λ _. IsSound (b + 1)) (apply q (live st) m)
  apply-IsSound st b m v room = Returns-mono (apply-Applied q st m v.ready v.unlocked) λ r n a.
      record {
        ready = a.ready;
        unlocked = a.unlocked;
        ordered = ground (arith, a.corrections, a.errors, v.ordered, v.bounded);
        bounded = ground (arith, a.errors, v.bounded);
      }

  -- Any number of applications, from a state with at most `b` errors and no more corrections than
  -- errors, ends without a fault with the lock free, both states allocated, no more corrections
  -- than errors, and at most one more error for each application, while that number fits 32 bits.
  pub apply_all-IsSound :
      (sts : List State) (b : ℕ) (m : Qec State)
      → IsSound b m
      → b + length sts < 2 ^ 32
      → Returns (λ _. IsSound (b + length sts)) (apply_all sts m)
  unfolding apply_all
  apply_all-IsSound [] b m v room = returns (weaken b (b + 0) m (omega arith) v)
  apply_all-IsSound (st ∷ rest) b m v room =
      Returns-then (apply-IsSound st b m v (omega arith)) λ r n w.
        Returns-mono (apply_all-IsSound rest (b + 1) n w (omega arith))
          λ _ o u. weaken (b + 1 + length rest) (b + suc (length rest)) o (omega arith) u

  -- Statistics that are asked for before any syndrome was measured divide by zero.
  pub init-get_stats_fault :
      (a s : Option State) (m : Qec State) (old : Stats)
      → init q a s ≡ ok success m
      → get_stats (some old) m ≡ fault
  unfolding get_stats
  init-get_stats_fault a s m old e =
      let (_, _, _, none_yet, _) = Started-of_success q a s m e in ground arith

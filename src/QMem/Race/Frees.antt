-- ===== src/QMem/Race/Frees.antt =====
-- Releases and gets where the maximum may have been passed.
use ctrlxt_kernel.Base.{
  ℕ, ◌+◌, ◌-◌, ◌≤◌, ◌≡◌, refl, some, ◌==◌, arith, Bool-cases, inl, inr, eqb→eq,
}
use ctrlxt_kernel.Kernel.Pointer.{Pointer, null, addr, err_ptr}
use ctrlxt_kernel.Kernel.Run.{Returns, returns}
use ctrlxt_kernel.QMem.Defs.{Block, QMem, free, get}
use ctrlxt_kernel.QMem.Sound.{IsSound}
use ctrlxt_kernel.QMem.Free.{free-released, free-recounted, get-recounted}
use ctrlxt_kernel.QMem.Keep.{held-released, live_block, released-IsSound, recounted-IsSound}
use ctrlxt_kernel.QMem.History.{Owned, Uncrowded, block_at}

-- The manager with another maximum.
abbrev pub raised : ℕ → QMem → QMem
raised cap m = record m { max_qubits = cap }

-- A run of a release or a get keeps the manager sound under a raised maximum, and allocates nothing.
abbrev pub Frees : ℕ → QMem → QMem → Type 0
Frees cap m n =
    IsSound (raised cap n)
    × (n.allocated_qubits ≤ m.allocated_qubits)
    × (n.max_qubits ≡ m.max_qubits)

module _ (cap : ℕ) (m : QMem) (v : IsSound (raised cap m)) where
  free_block-Frees :
      (a : ℕ) (b : Block) → m.heap a ≡ some b → Returns (λ _. Frees cap m) (free (addr a) m)
  free_block-Frees a b e =
      let (pos, fits, _, _) = live_block a b v e in
      elim (Bool-cases (b.ref_count == 1)) [
        | inl last ↦ rw (free-released a b m v.unlocked e (eqb→eq b.ref_count 1 last)) (
            returns (
              released-IsSound a b (raised cap m) v e,
              omega (arith, held-released a b (raised cap m) v e, v.ledger, v.within, v.small),
              refl,
            ))
        | inr more ↦ rw (free-recounted a b m v.unlocked e (ground arith) fits) (
            returns (
              recounted-IsSound a b (raised cap m) v e (b.ref_count - 1) (ground arith)
                  (ground arith),
              omega arith,
              refl,
            ))
      ]

  pub free-Frees : (p : Pointer) → Owned p m → Returns (λ _. Frees cap m) (free p m)
  unfolding free
  free-Frees null h = returns (v, omega arith, refl)
  free-Frees (err_ptr e) h = absurd h
  free-Frees (addr a) h = let (b, e) = block_at a v h in free_block-Frees a b e

  pub get-Frees : (p : Pointer) → Owned p m → Uncrowded p m → Returns (λ _. Frees cap m) (get p m)
  unfolding get
  get-Frees null h room = returns (v, omega arith, refl)
  get-Frees (err_ptr e) h room = absurd h
  get-Frees (addr a) h room =
      let (b, e) = block_at a v h in
      rw (get-recounted a b m e (room b e)) (
        returns (
          recounted-IsSound a b (raised cap m) v e (b.ref_count + 1) (omega arith) (room b e),
          omega arith,
          refl,
        ))

-- ===== src/QMem/Race/Waiting.antt =====
-- What the threads behind the checks of ctrlxt_qmem_alloc wait to allocate.
use ctrlxt_kernel.Base.{
  ℕ, ◌+◌, ◌*◌, ◌≤◌, ◌≡◌, ◌&&◌, some, List, [], ◌∷◌, ltb, leb, if◌then◌else◌, get_elem?, length,
  total, zero, suc, arith,
}
use ctrlxt_kernel.QMem.Defs.{qmem_max_qubits_per_block}
use ctrlxt_kernel.QMem.Race.{Phase, idle, admitted, pending}

-- A thread that waits with a size that the checks let through counts 0, another one 1.
abbrev pub misfit : Phase → ℕ
misfit idle = 0
misfit (admitted n) = if ltb 0 n && leb n qmem_max_qubits_per_block then 0 else 1

total-pending-le :
    (xs : List Phase)
    → total misfit xs ≡ 0
    → total pending xs ≤ qmem_max_qubits_per_block * length xs
total-pending-le [] h = omega arith
total-pending-le (idle ∷ xs) h = let rest = total-pending-le xs (omega arith) in omega arith
total-pending-le (admitted n ∷ xs) h = let rest = total-pending-le xs (ground arith) in ground arith

pub total-pending-idle :
    (xs : List Phase) (i : ℕ)
    → total misfit xs ≡ 0
    → get_elem? xs i ≡ some idle
    → total pending xs + qmem_max_qubits_per_block ≤ qmem_max_qubits_per_block * length xs
total-pending-idle [] i h e = absurd cc
total-pending-idle (idle ∷ xs) zero h e =
    let rest = total-pending-le xs (omega arith) in omega arith
total-pending-idle (admitted n ∷ xs) zero h e = absurd cc
total-pending-idle (idle ∷ xs) (suc i) h e =
    let rest = total-pending-idle xs i (omega arith) e in omega arith
total-pending-idle (admitted n ∷ xs) (suc i) h e =
    let rest = total-pending-idle xs i (ground arith) e in ground arith

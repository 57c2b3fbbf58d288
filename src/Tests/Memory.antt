-- ===== src/Tests/Memory.antt =====
-- Runs of the quantum memory manager: kernel/quantum/quantum_memory.c.
use ctrlxt_kernel.Base.{
  ℕ, ◌+◌, ◌-◌, ◌*◌, ◌≤◌, ◌<◌, ◌≡◌, refl, false, none, some, List, [], ◌∷◌, arith, ◌==◌, if_cases,
}
use ctrlxt_kernel.Kernel.Pointer.{addr}
use ctrlxt_kernel.Kernel.Run.{ok, pure, ◌>>=◌, ◌>>◌, write, Returns}
use ctrlxt_kernel.QMem.Defs.{
  QMem, init, alloc, alloc_locked, is_exhausted, release_block, free, exit,
}
use ctrlxt_kernel.QMem.Sound.{IsSound, IsBlock, new_block, granted, alloc_locked-granted}
use ctrlxt_kernel.Kernel.History.{IfOk, Lawful, run_all}
use ctrlxt_kernel.QMem.History.{
  Op, Permitted, step, allocs, frees, puts, gets, sets_max, init-run-IsSound, unloaded,
}
use ctrlxt_kernel.QMem.RoundTrip.{free-alloc}
use ctrlxt_kernel.QMem.Limits.{alloc_race}
use ctrlxt_kernel.QMem.Pool.{Lease, call_all, view, answer_all, AllAllowed, empty_pool}
use ctrlxt_kernel.QMem.Pool.Refines.{init-call_all-answer_all}
use ctrlxt_kernel.QMem.States.{count, entrusted}
use ctrlxt_kernel.QMem.States.Unloading.{init-call_all-exit}
use ctrlxt_kernel.QMem.Race
use ctrlxt_kernel.QMem.Race.{idle, admitted, is_refused, checks, commits, here, next}
use ctrlxt_kernel.QMem.Race.Bounds.{Reach-bounded}
use ctrlxt_kernel.QMem.Exit.{exit-frees, states_onto}

-- A manager with room for 100 qubits and no blocks.
abbrev pub small_manager : QMem
small_manager = record unloaded { max_qubits = 100; memory_pool = some 9; pool_size = 1048576 }

pub small_manager-IsSound : IsSound small_manager
small_manager-IsSound = record {
  distinct = tt;
  live = λ a h. cc;
  dead = λ a h. refl;
  ledger = refl;
  same = refl;
  within = omega arith;
  small = omega arith;
  unlocked = refl;
}

-- The manager with one block of 60 qubits at address 7.
abbrev pub one_block : QMem
one_block = record small_manager {
  used_blocks = 7 ∷ [];
  total_qubits = 60;
  allocated_qubits = 60;
  heap = write (λ _. none) 7 (some (new_block 60 0 70));
}

one_block-IsSound : IsSound one_block
unfolding write
one_block-IsSound = record {
  distinct = (refl, tt);
  live = λ a h.
      if_cases IsBlock (a == 7) (some (new_block 60 0 70)) none
        (λ _. (omega arith, omega arith, omega arith, omega arith)) (λ e. cc);
  dead = λ a h.
      if_cases (λ o. o ≡ none) (a == 7) (some (new_block 60 0 70)) none (λ e. cc) (λ _. refl);
  ledger = refl;
  same = refl;
  within = omega arith;
  small = omega arith;
  unlocked = refl;
}

one_block-heap : one_block.heap 7 ≡ some (new_block 60 0 70)
unfolding write
one_block-heap = refl

abbrev two_calls : List Op
two_calls = allocs 60 0 (some 7) (some 70) ∷ frees (addr 7) ∷ []

two_calls-Lawful : IfOk (Lawful step Permitted two_calls) ((init (some 9) >> pure tt) unloaded)
unfolding init step alloc alloc_locked is_exhausted free write release_block
two_calls-Lawful = (refl, (refl, tt))

init-run-IsSound_example :
    Returns (λ _. IsSound) ((init (some 9) >> run_all step two_calls) unloaded)
init-run-IsSound_example = init-run-IsSound 9 two_calls two_calls-Lawful

free-alloc_example :
    (alloc 60 0 (some 7) (some 70) >>= free) small_manager
    ≡ ok tt (record small_manager { freed_states = 70 ∷ [] })
free-alloc_example =
    free-alloc 60 0 7 70 small_manager small_manager-IsSound (omega arith) (omega arith)
      (omega arith) refl

alloc_race_example :
    (m : QMem) × ((alloc_locked 60 0 (some 1) (some 10) >> alloc_locked 50 0 (some 2) (some 20))
        small_manager
      ≡ ok (addr 2) m)
    × (m.max_qubits < m.allocated_qubits)
unfolding is_exhausted
alloc_race_example =
    alloc_race 60 50 0 0 1 2 10 20 small_manager small_manager-IsSound (omega arith) (omega arith)
      refl refl (omega arith)

exit-frees_example :
    Returns
      (λ _ m.
        (m.used_blocks ≡ [])
        × ((x : ℕ) → m.heap x ≡ none)
        × (m.freed_states ≡ states_onto one_block.heap one_block.used_blocks [])
        × (m.freed_pools ≡ 9 ∷ [])
        × (m.locked ≡ false))
      (exit one_block)
exit-frees_example = exit-frees one_block one_block-IsSound

-- A block of 60 qubits is allocated, shared and given back twice; a larger one is refused.
abbrev pool_ops : List Op
pool_ops =
    allocs 60 0 (some 7) (some 70)
    ∷ gets (addr 7)
    ∷ frees (addr 7)
    ∷ sets_max 50
    ∷ puts (addr 7)
    ∷ allocs 65 0 (some 7) (some 70)
    ∷ []

pool_ops-AllAllowed : AllAllowed pool_ops empty_pool
unfolding write
pool_ops-AllAllowed =
    let one : Lease = record { size = 60; references = 1 } in
    let two : Lease = record { size = 60; references = 2 } in
    (refl, ((one, refl, omega arith), ((two, refl), (omega arith, ((one, refl), (refl, tt))))))

init-call_all-answer_all_example :
    Returns
      (λ answers m. (answers, view m) ≡ answer_all pool_ops empty_pool)
      ((init (some 9) >> call_all pool_ops) unloaded)
init-call_all-answer_all_example = init-call_all-answer_all 9 pool_ops pool_ops-AllAllowed

init-call_all-exit_example :
    Returns
      (λ answers m.
        (m.used_blocks ≡ [])
        × ((x : ℕ) → m.heap x ≡ none)
        × (m.locked ≡ false)
        × ((s : ℕ) → count s m.freed_states ≡ count s (entrusted pool_ops answers)))
      ((init (some 9) >> call_all pool_ops >>= λ answers. exit >> pure answers) unloaded)
init-call_all-exit_example = init-call_all-exit 9 pool_ops pool_ops-AllAllowed

-- Two threads pass the checks for 60 qubits each, and then both take them.
abbrev both_admitted : Race.System
both_admitted = record { qmem = small_manager; threads = admitted 60 ∷ admitted 60 ∷ [] }

abbrev one_taken : Race.System
one_taken = record { qmem = granted 60 0 7 70 small_manager; threads = idle ∷ admitted 60 ∷ [] }

abbrev both_taken : Race.System
both_taken = record {
  qmem = granted 60 0 8 80 (granted 60 0 7 70 small_manager);
  threads = idle ∷ idle ∷ [];
}

both_taken-Reach : Race.Reach (Race.initial 2 small_manager) both_taken
unfolding is_refused is_exhausted write
both_taken-Reach =
    let s0 = Race.initial 2 small_manager in
    let s1 : Race.System = record { qmem = small_manager; threads = admitted 60 ∷ idle ∷ [] } in
    let r1 : Race.Reach s0 s1 = next here (checks s0 0 60 refl refl) in
    let r2 : Race.Reach s0 both_admitted = next r1 (checks s1 1 60 refl refl) in
    let r3 : Race.Reach s0 one_taken = next r2 (
      commits both_admitted 0 60 0 (some 7) (some 70) (addr 7) one_taken.qmem refl refl
        (alloc_locked-granted 60 0 7 70 small_manager refl)) in
    next r3 (
      commits one_taken 1 60 0 (some 8) (some 80) (addr 8) both_taken.qmem refl refl
        (alloc_locked-granted 60 0 8 80 one_taken.qmem refl))

Reach-bounded_example : both_taken.qmem.allocated_qubits ≤ 100 + 64 * (2 - 1)
Reach-bounded_example =
    Reach-bounded 2 small_manager both_taken small_manager-IsSound (omega arith) both_taken-Reach

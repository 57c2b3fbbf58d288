-- ===== src/Tests/Regions.antt =====
-- Runs of memory management: kernel/mm/memory.c.
use ctrlxt_kernel.Base.{◌≡◌, refl, true, false, List, [], ◌∷◌, arith}
use ctrlxt_kernel.Kernel.Run.{ok, ◌>>=◌, Returns}
use ctrlxt_kernel.Mm.{
  Machine, Region, Mm, init, exit, quantum_memory_alloc, quantum_memory_free, take_from, give_to,
}
use ctrlxt_kernel.Mm.Alloc.{Heads, alloc_all, alloc_all-offsets, offsets, sum, moved}
use ctrlxt_kernel.Mm.Free.{free-moved, all_normal}
use ctrlxt_kernel.Mm.Pieces.{Op, allocs, frees, Client, step, Permitted, Disjoint, AllFrom}
use ctrlxt_kernel.Mm.Pieces.Disjoint.{run_all-Disjoint}
use ctrlxt_kernel.Kernel.History.{Lawful, run_all}
use ctrlxt_kernel.Mm.Setup.{exit-init, normal_region}

abbrev machine : Machine
machine = record {
  page_shift = 12;
  page_offset = 4096;
  totalram_pages = 1000;
  get_order = λ size. size;
}

abbrev region : Region
region = record { start = 100; end = 200; flags = 2; quantum_flags = 1 }

abbrev manager : Mm
manager = record {
  memory_regions = region ∷ normal_region machine ∷ [];
  locked = false;
  total_pages = 1000;
  free_pages = 1000;
  quantum_pages = 10;
  freed = [];
}

manager-Heads : Heads region (normal_region machine ∷ []) manager
manager-Heads = record { regions = refl; quantum = refl; unlocked = refl }

alloc_all-offsets_example :
    alloc_all (10 ∷ 20 ∷ 30 ∷ []) manager
    ≡ ok (offsets 100 (10 ∷ 20 ∷ 30 ∷ [])) (moved region (normal_region machine ∷ []) 160 manager)
unfolding sum
alloc_all-offsets_example =
    alloc_all-offsets (10 ∷ 20 ∷ 30 ∷ []) region (normal_region machine ∷ []) manager manager-Heads
      (omega arith)

free-moved_example :
    (quantum_memory_alloc 40 >>= λ a. quantum_memory_free a 40) manager ≡ ok tt manager
free-moved_example =
    free-moved 40 region (normal_region machine ∷ []) manager manager-Heads (omega arith)
      (omega arith)

exit-init_example :
    Returns
      (λ _ n. (n.memory_regions ≡ []) × (n.freed ≡ (4096, 40960) ∷ []))
      ((init machine true true 4096 >>= λ _. exit machine) manager)
exit-init_example = exit-init machine 4096 manager (omega arith) (omega arith)

-- The latest of two pieces is freed, and its memory is handed out again.
abbrev piece_ops : List Op
piece_ops = allocs 10 ∷ allocs 20 ∷ frees 110 20 ∷ allocs 5 ∷ []

abbrev no_pieces : Client
no_pieces = record { mm = manager; pieces = [] }

piece_ops-Lawful : Lawful step Permitted piece_ops no_pieces
unfolding step quantum_memory_alloc take_from quantum_memory_free give_to
piece_ops-Lawful = (
  (omega arith, omega arith),
  ((omega arith, omega arith), (refl, ((omega arith, omega arith), tt))),
)

run_all-Disjoint_example :
    Returns (λ _ c. Disjoint c.pieces × AllFrom 100 c.pieces) (run_all step piece_ops no_pieces)
unfolding all_normal
run_all-Disjoint_example =
    run_all-Disjoint piece_ops region (normal_region machine ∷ []) manager manager-Heads refl
      (omega arith) piece_ops-Lawful

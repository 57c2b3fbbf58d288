-- ===== src/QMem/States.antt =====
-- Where the quantum states of the memory manager go: into blocks, and back by quantum_state_free.
pub mod Calls
pub mod Unloading
use ctrlxt_kernel.Base.{ℕ, ◌+◌, ◌==◌, if◌then◌else◌, Option, none, some, List, [], ◌∷◌, total}
use ctrlxt_kernel.Kernel.Pointer.{addr}
use ctrlxt_kernel.QMem.Defs.{Block, QMem}
use ctrlxt_kernel.QMem.Count.{sum_of}
use ctrlxt_kernel.QMem.History.{Op, allocs}
use ctrlxt_kernel.QMem.Pool.{Answer, pointer}

-- 1 for the quantum state at `s`.
abbrev pub is_state : ℕ → ℕ → ℕ
is_state s t = if t == s then 1 else 0

-- How often a state is on a list.
abbrev pub count : ℕ → List ℕ → ℕ
count s xs = total (is_state s) xs

abbrev pub is_state_opt : ℕ → Option ℕ → ℕ
is_state_opt s none = 0
is_state_opt s (some t) = is_state s t

abbrev pub has_state : ℕ → Option Block → ℕ
has_state s none = 0
has_state s (some b) = is_state_opt s b.state

-- How often a state is in a listed block or has been freed.
abbrev pub accounted : ℕ → QMem → ℕ
accounted s m = count s m.freed_states + sum_of (has_state s) m.heap m.used_blocks

-- The states that calls have put into blocks: those of the allocations that answer with a block.
abbrev pub entrusted : List Op → List Answer → List ℕ
entrusted (allocs n f block (some t) ∷ os) (pointer (addr a) ∷ rest) = t ∷ entrusted os rest
entrusted (o ∷ os) (a ∷ rest) = entrusted os rest
entrusted os [] = []
entrusted [] rest = []

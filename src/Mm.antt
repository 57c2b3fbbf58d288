-- ===== src/Mm.antt =====
-- Memory management, kernel/mm/memory.c. The list of regions is a list, newest first, and a region
-- leaves the heap with its place in the list. The page size, the start of the kernel's addresses,
-- totalram_pages and get_order are the kernel's and make up the record `Machine`; what kzalloc
-- returns is a Boolean, and what __get_free_pages returns is an address, 0 where it fails. The
-- calls of free_pages are logged with their address and order, newest first. An `unsigned long`
-- is written out modulo 2 ^ 64.
pub mod Alloc
pub mod Free
pub mod Pieces
pub mod Setup
use Prim.Native.Nat.{bit_and}
use ctrlxt_kernel.Base.{
  ℕ, ◌+◌, ◌-◌, ◌*◌, ◌/◌, ◌%◌, ◌^◌, Bool, true, false, not, ◌&&◌, List, [], ◌∷◌, ℤ, leb, is_neg,
  ◌==◌, if◌then◌else◌,
}
use ctrlxt_kernel.Kernel.Errno.{success, enomem}
use ctrlxt_kernel.Kernel.Atomic.{atomic_add}
use ctrlxt_kernel.Kernel.Run.{ok, fault, Cmd, pure, ◌>>=◌, ◌>>◌, modify}

pub record Machine : Type 0 where
  pub page_shift : ℕ
  pub page_offset : ℕ
  pub totalram_pages : ℕ
  pub get_order : ℕ → ℕ

pub record Region : Type 0 where
  pub start : ℕ
  pub end : ℕ
  pub flags : ℕ
  pub quantum_flags : ℕ

pub record Mm : Type 0 where
  pub memory_regions : List Region
  pub locked : Bool
  pub total_pages : ℕ
  pub free_pages : ℕ
  pub quantum_pages : ℕ
  pub freed : List (ℕ × ℕ)

abbrev pub memory_region_normal : ℕ
memory_region_normal = 1

abbrev pub memory_region_quantum : ℕ
memory_region_quantum = 2

abbrev pub quantum_memory_coherent : ℕ
quantum_memory_coherent = 1

abbrev pub lock : Cmd Mm (Unit {0})
lock m = if m.locked then fault else ok tt (record m { locked = true })

abbrev pub unlock : Cmd Mm (Unit {0})
unlock m = ok tt (record m { locked = false })

-- `x - y` of two `unsigned long`s.
abbrev pub minus : ℕ → ℕ → ℕ
minus x y = (x + 2 ^ 64 - y) % 2 ^ 64

abbrev pub plus : ℕ → ℕ → ℕ
plus x y = (x + y) % 2 ^ 64

abbrev pub is_quantum : Region → Bool
is_quantum r = not (bit_and r.flags memory_region_quantum == 0)

-- The loop of quantum_memory_alloc: the address, and the regions behind it.
unfoldable pub take_from : ℕ → List Region → ℕ × List Region
take_from size [] = (0, [])
take_from size (r ∷ rest) =
    let later = take_from size rest in
    if is_quantum r
    then (r.start, record r { start = plus r.start size } ∷ rest)
    else (later.0, r ∷ later.1)

unfoldable pub quantum_memory_alloc : (size : ℕ) → Cmd Mm ℕ
quantum_memory_alloc size m =
    (do
      lock
      λ n.
          let r = take_from size n.memory_regions in
          ok r.0 (record n { memory_regions = r.1; locked = false }))
      m

-- The test of quantum_memory_free at one quantum region.
abbrev pub takes_back : (address size : ℕ) → Region → Bool
takes_back address size r = leb (minus r.start size) address && leb address r.end

-- The loop of quantum_memory_free.
unfoldable pub give_to : (address size : ℕ) → List Region → List Region
give_to address size [] = []
give_to address size (r ∷ rest) =
    let later = give_to address size rest in
    if is_quantum r && takes_back address size r
    then record r { start = minus r.start size } ∷ rest
    else r ∷ later

unfoldable pub quantum_memory_free : (address size : ℕ) → Cmd Mm (Unit {0})
quantum_memory_free address size m =
    (do
      lock
      modify λ n. record n { memory_regions = give_to address size n.memory_regions }
      unlock)
      m

module _ (k : Machine) where
  open k use {page_shift, page_offset, totalram_pages, get_order}

  abbrev pub pages_of : ℕ → ℕ
  pages_of bytes = bytes / 2 ^ page_shift

  abbrev pub ram_bytes : ℕ
  ram_bytes = totalram_pages * 2 ^ page_shift % 2 ^ 64

  unfoldable pub register_memory_regions : (kzalloc : Bool) → Cmd Mm ℤ
  register_memory_regions false m = ok enomem m
  register_memory_regions true m =
      let end = plus page_offset ram_bytes in
      let pages = pages_of (minus end page_offset) in
      let region : Region = record {
        start = page_offset;
        end = end;
        flags = memory_region_normal;
        quantum_flags = 0;
      } in
      (do
        lock
        modify λ n. record n {
          memory_regions = region ∷ n.memory_regions;
          total_pages = atomic_add pages n.total_pages;
          free_pages = atomic_add pages n.free_pages;
        }
        unlock
        pure success)
        m

  -- 1 % of the memory.
  abbrev pub quantum_size : ℕ
  quantum_size = ram_bytes / 100

  unfoldable pub init_quantum_memory : (kzalloc : Bool) → (get_free_pages : ℕ) → Cmd Mm ℤ
  init_quantum_memory false address m = ok enomem m
  init_quantum_memory true address m =
      let region : Region = record {
        start = address;
        end = plus address quantum_size;
        flags = memory_region_quantum;
        quantum_flags = quantum_memory_coherent;
      } in
      if address == 0
      then ok enomem m
      else (do
        lock
        modify λ n. record n {
          memory_regions = region ∷ n.memory_regions;
          quantum_pages = atomic_add (pages_of quantum_size) n.quantum_pages;
        }
        unlock
        pure success)
          m

  -- The end of ctrlxt_mm_init, behind register_memory_regions.
  abbrev pub init_rest : (registered : ℤ) → (quantum : Bool) → (get_free_pages : ℕ) → Cmd Mm ℤ
  init_rest r quantum address =
      if is_neg r
      then pure enomem
      else do s ← init_quantum_memory quantum address; pure (if is_neg s then enomem else success)

  unfoldable pub init : (normal quantum : Bool) → (get_free_pages : ℕ) → Cmd Mm ℤ
  init normal quantum address m =
      (do
        modify λ n. record n {
          memory_regions = [];
          locked = false;
          total_pages = 0;
          free_pages = 0;
          quantum_pages = 0;
        }
        r ← register_memory_regions normal
        init_rest r quantum address)
        m

  -- The loop of mm_exit: what free_pages is called with, newest first.
  unfoldable pub freed_by : List Region → List (ℕ × ℕ) → List (ℕ × ℕ)
  freed_by [] log = log
  freed_by (r ∷ rest) log =
      freed_by rest (if is_quantum r then (r.start, get_order (minus r.end r.start)) ∷ log else log)

  unfoldable pub exit : Cmd Mm (Unit {0})
  exit m =
      (do
        lock
        modify λ n. record n { memory_regions = []; freed = freed_by n.memory_regions n.freed }
        unlock)
        m

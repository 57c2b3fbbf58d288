-- ===== src/Contexts/Holding.antt =====
-- A context that one caller made and holds: reads, writes and the last reference given back.
use ctrlxt_kernel.Base.{ℕ, ◌≡◌, refl, false, none, some}
use ctrlxt_kernel.Kernel.Pointer.{addr}
use ctrlxt_kernel.Kernel.Run.{ok, write, write-read, write-write, write_self}
use ctrlxt_kernel.Contexts.Defs.{Context, Contexts, load, update_body, put, destroy}

-- The state that is otherwise `m`, with the context at `a`.
module _ {B : Type 0} (a : ℕ) (m : Contexts B) where
  abbrev pub holding : Context B → Contexts B
  holding c = record m { heap = write m.heap a (some c) }

  pub load-holding : (c : Context B) → load (addr a) (holding c) ≡ ok c (holding c)
  load-holding c = rw (load, write-read) refl

  pub update_body-holding :
      (g : B → B) (c : Context B)
      → update_body g (addr a) (holding c) ≡ ok tt (holding (record c { body = g c.body }))
  unfolding update_body
  update_body-holding g c = rw (load, write-read) (rw write-write refl)

  pub put-holding :
      (c : Context B)
      → m.locked ≡ false
      → m.heap a ≡ none
      → c.private_data ≡ none
      → c.ref_count ≡ 1
      → put (addr a) (holding c) ≡ ok tt m
  unfolding put destroy
  put-holding c u e p r =
      rw (u, load, write-read, p, r)
        (rw write-write (rw (write-write, write_self m.heap a none e) refl))

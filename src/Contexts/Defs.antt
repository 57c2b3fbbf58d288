-- ===== src/Contexts/Defs.antt =====
-- The operations on reference-counted contexts. A context is an object on a heap; `body` holds
-- the fields that differ between the two sources. What kzalloc returns is an argument.
use ctrlxt_kernel.Base.{ℕ, Bool, true, false, Option, none, some, List, ◌∷◌, ℤ, ◌==◌, if◌then◌else◌}
use ctrlxt_kernel.Kernel.Errno.{success, enomem}
use ctrlxt_kernel.Kernel.Pointer.{Pointer, null, addr, err_ptr}
use ctrlxt_kernel.Kernel.Atomic.{atomic_inc, atomic_dec}
use ctrlxt_kernel.Kernel.Run.{ok, fault, Cmd, pure, ◌>>=◌, ◌>>◌, modify, Heap, write}

pub record Context (B : Type 0) : Type 0 where
  pub body : B
  pub private_data : Option ℕ
  pub ref_count : ℕ

pub record Contexts (B : Type 0) : Type 0 where
  pub heap : Heap (Context B)
  pub global_context : Pointer
  pub locked : Bool
  pub freed_data : List ℕ

module _ {B : Type 0} where
  abbrev pub lock : Cmd (Contexts B) (Unit {0})
  lock m = if m.locked then fault else ok tt (record m { locked = true })

  abbrev pub unlock : Cmd (Contexts B) (Unit {0})
  unlock m = ok tt (record m { locked = false })

  -- A read through a pointer.
  abbrev pub load : Pointer → Cmd (Contexts B) (Context B)
  load null m = fault
  load (err_ptr e) m = fault
  load (addr a) m = elim (m.heap a) [ none ↦ fault | some c ↦ ok c m ]

  abbrev pub store : ℕ → Option (Context B) → Cmd (Contexts B) (Unit {0})
  store a c m = ok tt (record m { heap = write m.heap a c })

  -- A new context of the given fields, with one reference.
  abbrev pub fresh : B → Context B
  fresh body = record { body = body; private_data = none; ref_count = 1 }

  -- The context is made and becomes the global one.
  unfoldable pub install : Option ℕ → B → Cmd (Contexts B) ℤ
  install none body m = ok enomem m
  install (some a) body m =
      (do
        store a (some (fresh body))
        lock
        modify λ n. record n { global_context = addr a }
        unlock
        pure success)
        m

  -- A new context that is the caller's alone.
  unfoldable pub create : Option ℕ → B → Cmd (Contexts B) Pointer
  create none body m = ok (err_ptr enomem) m
  create (some a) body m = (do store a (some (fresh body)); pure (addr a)) m

  -- The private data and the context are freed.
  unfoldable pub destroy : ℕ → Context B → Cmd (Contexts B) (Unit {0})
  destroy a c m = elim c.private_data [
    | none ↦ store a none m
    | some d ↦ store a none (record m { freed_data = d ∷ m.freed_data })
  ]

  -- The global context is freed, whatever its reference count.
  unfoldable pub uninstall : Cmd (Contexts B) (Unit {0})
  unfolding destroy
  uninstall m =
      (do
        lock
        modify λ n. record n { global_context = null }
        unlock
        λ n. elim m.global_context [
          | null ↦ ok tt n
          | err_ptr e ↦ fault
          | addr a ↦ (do c ← load (addr a); destroy a c) n
        ])
        m

  -- A reference to the global context, if there is one.
  unfoldable pub get : Cmd (Contexts B) Pointer
  get m =
      (do
        lock
        λ n. elim m.global_context [
          | null ↦ ok tt n
          | err_ptr e ↦ fault
          | addr a ↦
              (do
                c ← load (addr a)
                store a (some (record c { ref_count = atomic_inc c.ref_count })))
                n
        ]
        unlock
        pure m.global_context)
        m

  -- A reference is given back, and the last one frees the context.
  unfoldable pub put : Pointer → Cmd (Contexts B) (Unit {0})
  unfolding destroy
  put null m = ok tt m
  put (err_ptr e) m = fault
  put (addr a) m =
      (do
        lock
        c ← load (addr a)
        let c' = record c { ref_count = atomic_dec c.ref_count }
        store a (some c')
        if c'.ref_count == 0 then destroy a c' else pure tt
        unlock)
        m

  -- A field is written through a pointer that is not NULL.
  unfoldable pub update_body : (B → B) → Pointer → Cmd (Contexts B) (Unit {0})
  update_body f null m = fault
  update_body f (err_ptr e) m = fault
  update_body f (addr a) m = (do c ← load (addr a); store a (some (record c { body = f c.body }))) m

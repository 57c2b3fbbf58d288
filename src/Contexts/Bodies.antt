-- ===== src/Contexts/Bodies.antt =====
-- Properties that the own fields of every context keep, whatever the calls.
use ctrlxt_kernel.Base.{
  subst, ℕ, ◌≡◌, false, Option, none, some, ◌∷◌, ◌==◌, if_cases, Option-cases, inl, inr,
}
use ctrlxt_kernel.Kernel.Atomic.{atomic_inc, atomic_dec}
use ctrlxt_kernel.Kernel.Pointer.{Pointer, null, addr, err_ptr}
use ctrlxt_kernel.Kernel.Run.{
  Run, ok, fault, pure, ◌>>=◌, write, Ends, ended, faulted, Ends-then, Ends-if,
}
use ctrlxt_kernel.Contexts.Defs.{
  Context, Contexts, fresh, get, put, install, uninstall, create, destroy, update_body, load, store,
  lock,
}

module _ {B : Type 0} (Q : B → Type 0) where
  -- Every allocated context has the property.
  abbrev pub Bodies : Contexts B → Type 0
  Bodies m = (a : ℕ) (c : Context B) → m.heap a ≡ some c → Q c.body

  abbrev pub Keeps : {A : Type 0} → Run (Contexts B) A → Type 0
  Keeps r = Ends (λ _. Bodies) r

  abbrev stored : ℕ → Option (Context B) → Contexts B → Contexts B
  stored a c m = record m { heap = write m.heap a c }

  store-Bodies :
      (a : ℕ) (c : Context B) (m : Contexts B) → Bodies m → Q c.body → Bodies (stored a (some c) m)
  unfolding write
  store-Bodies a c m v h x d e =
      if_cases (λ o. o ≡ some d → Q d.body) (x == a) (some c) (m.heap x)
        (λ _ i. let j : c ≡ d = cc in subst (λ z. Q z.body) j h) (λ _ i. v x d i) e

  delete-Bodies : (a : ℕ) (m : Contexts B) → Bodies m → Bodies (stored a none m)
  unfolding write
  delete-Bodies a m v x d e =
      if_cases (λ o. o ≡ some d → Q d.body) (x == a) none (m.heap x) (λ _ i. cc) (λ _ i. v x d i) e

  lock-Keeps : (m : Contexts B) → Bodies m → Keeps (lock m)
  lock-Keeps m v = Ends-if m.locked faulted (ended v)

  -- What a pointer leads to has the property.
  load-Keeps :
      (p : Pointer) (m : Contexts B) → Bodies m → Ends (λ c n. Bodies n × Q c.body) (load p m)
  load-Keeps null m v = faulted
  load-Keeps (err_ptr e) m v = faulted
  load-Keeps (addr a) m v = elim (Option-cases (m.heap a)) [
    | inl e ↦ rw (e, load) faulted
    | inr (c, e) ↦ rw (e, load) (ended (v, v a c e))
  ]

  destroy-Keeps : (a : ℕ) (c : Context B) (m : Contexts B) → Bodies m → Keeps (destroy a c m)
  unfolding destroy
  destroy-Keeps a c m v = elim (Option-cases c.private_data) [
    | inl e ↦ rw e (ended (delete-Bodies a m v))
    | inr (d, e) ↦ rw e (ended (delete-Bodies a (record m { freed_data = d ∷ m.freed_data }) v))
  ]

  pub install-Keeps :
      (k : Option ℕ) (body : B) (m : Contexts B) → Q body → Bodies m → Keeps (install k body m)
  unfolding install
  install-Keeps none body m h v = ended v
  install-Keeps (some a) body m h v =
      Ends-then (lock-Keeps (stored a (some (fresh body)) m) (store-Bodies a (fresh body) m v h))
        λ _ _ z. ended z

  pub create-Keeps :
      (k : Option ℕ) (body : B) (m : Contexts B) → Q body → Bodies m → Keeps (create k body m)
  unfolding create
  create-Keeps none body m h v = ended v
  create-Keeps (some a) body m h v = ended (store-Bodies a (fresh body) m v h)

  pub update_body-Keeps :
      (f : B → B) (p : Pointer) (m : Contexts B)
      → ((b : B) → Q b → Q (f b))
      → Bodies m
      → Keeps (update_body f p m)
  unfolding update_body
  update_body-Keeps f null m h v = faulted
  update_body-Keeps f (err_ptr e) m h v = faulted
  update_body-Keeps f (addr a) m h v =
      Ends-then (load-Keeps (addr a) m v)
        λ c n w. ended (store-Bodies a (record c { body = f c.body }) n w.0 (h c.body w.1))

  -- The middle part of get.
  count-Keeps :
      (p : Pointer) (m : Contexts B)
      → Bodies m
      → Keeps (elim p [
        | null ↦ ok tt m
        | err_ptr e ↦ fault
        | addr a ↦
            (do c ← load (addr a); store a (some (record c { ref_count = atomic_inc c.ref_count })))
              m
      ])
  count-Keeps null m v = ended v
  count-Keeps (err_ptr e) m v = faulted
  count-Keeps (addr a) m v =
      Ends-then (load-Keeps (addr a) m v)
        λ c n w. ended (store-Bodies a (record c { ref_count = atomic_inc c.ref_count }) n w.0 w.1)

  pub get-Keeps : (m : Contexts B) → Bodies m → Keeps (get m)
  unfolding get
  get-Keeps m v =
      Ends-then (lock-Keeps m v)
        λ _ n w. Ends-then (count-Keeps m.global_context n w) λ _ _ z. ended z

  pub put-Keeps : (p : Pointer) (m : Contexts B) → Bodies m → Keeps (put p m)
  unfolding put
  put-Keeps null m v = ended v
  put-Keeps (err_ptr e) m v = faulted
  put-Keeps (addr a) m v = Ends-then (lock-Keeps m v) λ _ n w.
      Ends-then (load-Keeps (addr a) n w) λ c k x.
        let c' = record c { ref_count = atomic_dec c.ref_count } in
        let y = store-Bodies a c' k x.0 x.1 in
        Ends-then
          (if_cases (λ r. Keeps (r (stored a (some c') k))) (c'.ref_count == 0) (destroy a c')
            (pure tt) (λ _. destroy-Keeps a c' (stored a (some c') k) y) (λ _. ended y))
          λ _ _ z. ended z

  destroy_global-Keeps :
      (p : Pointer) (m : Contexts B)
      → Bodies m
      → Keeps (elim p [
        | null ↦ ok tt m
        | err_ptr e ↦ fault
        | addr a ↦ (do c ← load (addr a); destroy a c) m
      ])
  destroy_global-Keeps null m v = ended v
  destroy_global-Keeps (err_ptr e) m v = faulted
  destroy_global-Keeps (addr a) m v =
      Ends-then (load-Keeps (addr a) m v) λ c n w. destroy-Keeps a c n w.0

  pub uninstall-Keeps : (m : Contexts B) → Bodies m → Keeps (uninstall m)
  unfolding uninstall
  uninstall-Keeps m v = Ends-then (lock-Keeps m v) λ _ n w.
      destroy_global-Keeps m.global_context (record n { global_context = null; locked = false }) w

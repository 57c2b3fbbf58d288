-- ===== src/Qec/Setup.antt =====
-- ctrlxt_qec_init and qec_exit: which quantum states are allocated and freed on each path.
use ctrlxt_kernel.Base.{
  ◌≡◌, refl, true, false, ℤ, is_neg, ◌⊎◌, inl, inr, Option, none, some, if_cases, arith,
}
use ctrlxt_kernel.Kernel.Errno.{success, enomem}
use ctrlxt_kernel.Kernel.Run.{Run, ok, Returns, returns, Returns-ok}
use ctrlxt_kernel.Kernel.Slot.{freed, slot, live_of}
use ctrlxt_kernel.Quantum.{Quantum}
use ctrlxt_kernel.Qec.{Qec, init, free_states}
use ctrlxt_kernel.Qec.Apply.{IsReady}

-- How an initialisation may end.
abbrev pub Started : {S : Type 0} → ℤ → Qec S → Type 0
Started ret m =
    (ret ≡ success)
    × IsReady m
    × (m.locked ≡ false)
    × (m.error_count ≡ 0)
    × (m.correction_count ≡ 0)

abbrev pub Undone : {S : Type 0} → ℤ → Qec S → Type 0
Undone ret m = (is_neg ret ≡ true) × (m.ancilla ≡ freed) × (m.syndrome ≡ freed)

no_success : is_neg success ≡ true → ⊥
no_success h = cc

module _ (q : Quantum) where
  open q use {State, state_init}

  -- When both quantum states are allocated, ctrlxt_qec_init either returns 0 with both of them
  -- held, the lock free and both counters 0, or returns a negative code with both of them freed.
  pub init-Started :
      (a s : State) → Returns (λ ret m. Started ret m ⊎ Undone ret m) (init q (some a) (some s))
  unfolding init free_states
  init-Started a s =
      let P : Run (Qec State) ℤ → Type 0 = Returns (λ ret m. Started ret m ⊎ Undone ret m) in
      if_cases P (is_neg (state_init a 0).0) _ _ (λ n. returns (inr (n, refl, refl)))
        λ _.
          if_cases P (is_neg (state_init s 0).0) _ _ (λ n. returns (inr (n, refl, refl)))
            λ _. returns (inl (refl, record { ancilla = refl; syndrome = refl }, refl, refl, refl))

  -- If ctrlxt_qec_init returns 0, both quantum states are held, the lock is free and both counters
  -- are 0.
  pub Started-of_success :
      (a s : Option State) (m : Qec State) → init q a s ≡ ok success m → Started success m
  Started-of_success none s m e = unfold init in cc
  Started-of_success (some a) none m e = unfold init in cc
  Started-of_success (some a) (some s) m e = elim (Returns-ok (init-Started a s) e) [
    | inl v ↦ v
    | inr v ↦ absurd (no_success v.0)
  ]

  -- When only one of the two is allocated, ctrlxt_qec_init returns -ENOMEM and leaves it
  -- allocated.
  pub init_leaks_state :
      (a s : Option State) (m : Qec State)
      → init q a s ≡ ok enomem m
      → (a ≡ none) ⊎ (s ≡ none)
      → (m.ancilla ≡ slot a) × (m.syndrome ≡ slot s)
  unfolding init
  init_leaks_state none s m e one = ground arith
  init_leaks_state (some a) none m e one = ground arith
  init_leaks_state (some a) (some s) m e (inl h) = cc
  init_leaks_state (some a) (some s) m e (inr h) = cc

  -- Unloading after an initialisation that returned 0 frees both states, without a fault.
  pub init-exit_frees :
      (a s : Option State) (m : Qec State)
      → init q a s ≡ ok success m
      → Returns (λ _ n. (n.ancilla ≡ freed) × (n.syndrome ≡ freed)) (free_states m)
  unfolding init free_states
  init-exit_frees a s m e =
      let (_, ready, _, _, _) = Started-of_success a s m e in
      let (x, f) = live_of m.ancilla ready.ancilla in
      let (y, g) = live_of m.syndrome ready.syndrome in
      rw (f, g, free_states) (returns (refl, refl))

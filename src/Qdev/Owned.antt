-- ===== src/Qdev/Owned.antt =====
-- The invariant of the quantum core: which quantum states the listed devices own.
use ctrlxt_kernel.Base.{
  ℕ, ◌≡◌, true, false, ◌==◌, Option, some, List, [], ◌∷◌, has, erase, Distinct, arith, Bool-cases,
  inl, inr, eqb→eq, eqb_refl,
}
use ctrlxt_kernel.Kernel.Run.{Heap, write}
use ctrlxt_kernel.Qdev.{QDevice, Core}

-- Each device of the first list exists and points to the quantum state at its place in the second.
pub data Owns (h : Heap QDevice) : List ℕ → List ℕ → Type 0 where
  nothing : Owns h [] []
  more :
      {a s : ℕ} {rest states : List ℕ} (d : QDevice)
      → h a ≡ some d
      → d.quantum_state ≡ some s
      → Owns h rest states
      → Owns h (a ∷ rest) (s ∷ states)

-- The allocated quantum states are those of the listed devices, one for each.
pub record IsSound (m : Core) : Type 0 where
  pub owns : Owns m.heap m.devices m.states
  pub apart : Distinct m.devices
  pub unshared : Distinct m.states

pub Owns-write :
    {h : Heap QDevice} {xs ss : List ℕ} (a : ℕ) (c : Option QDevice)
    → has a xs ≡ false
    → Owns h xs ss
    → Owns (write h a c) xs ss
unfolding write
Owns-write a c e nothing = nothing
Owns-write a c e (more d f g o) =
    more d (ground (arith, e, f, eqb_refl a)) g (Owns-write a c (ground (arith, e)) o)

-- What a listed device owns.
pub owned_at :
    {h : Heap QDevice} {xs ss : List ℕ} (a : ℕ)
    → Owns h xs ss
    → has a xs ≡ true
    → (d : QDevice) × (s : ℕ) × (h a ≡ some d) × (d.quantum_state ≡ some s) × (has s ss ≡ true)
owned_at a nothing e = cc
owned_at a (more {a = x} {s} {rest} {states = ss} d f g o) e = elim (Bool-cases (a == x)) [
  | inl q ↦ let same : a ≡ x = eqb→eq a x q in (d, s, cc, g, ground (arith, eqb_refl s))
  | inr q ↦
      let (d', s', f', g', k) = owned_at a o (ground (arith, e, q)) in
      (d', s', f', g', ground (arith, k))
]

pub Owns-erase :
    {h : Heap QDevice} {xs ss : List ℕ} (a s : ℕ) (d : QDevice)
    → Owns h xs ss
    → Distinct ss
    → has a xs ≡ true
    → h a ≡ some d
    → d.quantum_state ≡ some s
    → Owns h (erase a xs) (erase s ss)
Owns-erase a s d nothing u e f g = nothing
Owns-erase a s d (more {a = x} {s = s'} {rest} {states = ss} d' f' g' o) (u, us) e f g =
    elim (Bool-cases (a == x)) [
      | inl q ↦ let same : a ≡ x = eqb→eq a x q in let eq : s ≡ s' = cc in rw (q, eq, eqb_refl s') o
      | inr q ↦
          let listed : has a rest ≡ true = ground (arith, e, q) in
          let (d1, s1, f1, g1, k) = owned_at a o listed in
          let eq : s ≡ s1 = cc in
          let other : (s == s') ≡ false = ground (arith, u, k, eq, eqb→eq s s') in
          rw (q, other) (more d' f' g' (Owns-erase a s d o us listed f g))
    ]

-- ===== src/Kernel/History.antt =====
-- Histories of calls on a component, each permitted in the state in which it is made.
use ctrlxt_kernel.Base.{List, [], ◌∷◌}
use ctrlxt_kernel.Kernel.Run.{
  Run, ok, fault, Cmd, pure, ◌>>◌, and_then, Returns, returns, Returns-then,
}

module _ {S : Type 0} where
  -- What holds of the state that a call leaves, where it does not fault.
  abbrev pub IfOk : (S → Type 0) → Run S (Unit {0}) → Type 0
  IfOk P (ok _ m) = P m
  IfOk P fault = Unit {0}

  -- What a call keeps holds behind it, together with what was said of its final state.
  IfOk-then :
      {I P : S → Type 0} {r : Run S (Unit {0})} {k : Cmd S (Unit {0})}
      → Returns (λ _. I) r
      → IfOk P r
      → ((m : S) → I m → P m → Returns (λ _. I) (k m))
      → Returns (λ _. I) (and_then r (λ _. k))
  IfOk-then (returns i) h next = next _ i h

module _ {S Op : Type 0} (step : Op → Cmd S (Unit {0})) where
  pub run_all : List Op → Cmd S (Unit {0})
  run_all [] = pure tt
  run_all (o ∷ os) = step o >> run_all os

  -- What every call keeps, any history keeps.
  pub run_all-always :
      (I : S → Type 0)
      → ((o : Op) (m : S) → I m → Returns (λ _. I) (step o m))
      → (os : List Op) (m : S) → I m
      → Returns (λ _. I) (run_all os m)
  unfolding run_all
  run_all-always I keeps [] m i = returns i
  run_all-always I keeps (o ∷ os) m i =
      Returns-then (keeps o m i) (λ _ n j. run_all-always I keeps os n j)

  module _ (Permitted : Op → S → Type 0) where
    abbrev pub Lawful : List Op → S → Type 0
    Lawful [] m = Unit {0}
    Lawful (o ∷ os) m = Permitted o m × IfOk (Lawful os) (step o m)

    -- What each permitted call keeps, a lawful history keeps.
    pub run_all-keeps :
        (I : S → Type 0)
        → ((o : Op) (m : S) → I m → Permitted o m → Returns (λ _. I) (step o m))
        → (os : List Op) (m : S) → I m
        → Lawful os m
        → Returns (λ _. I) (run_all os m)
    unfolding run_all
    run_all-keeps I keeps [] m i h = returns i
    run_all-keeps I keeps (o ∷ os) m i (h, rest) =
        IfOk-then {P = Lawful os} (keeps o m i h) rest (run_all-keeps I keeps os)

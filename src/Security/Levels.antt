-- ===== src/Security/Levels.antt =====
-- The range of the security levels, over every call of the module.
use ctrlxt_kernel.Base.{ℕ, ◌≤◌, Option, List, [], ◌∷◌, ℤ, arith, if_cases}
use ctrlxt_kernel.Kernel.Pointer.{Pointer, null, addr, err_ptr}
use ctrlxt_kernel.Kernel.Run.{Run, Cmd, pure, and_then, ◌>>◌, Ends, ended, faulted, Ends-then}
use ctrlxt_kernel.Contexts.Defs.{Contexts}
use ctrlxt_kernel.Contexts.Bodies.{
  Bodies, Keeps, install-Keeps, create-Keeps, update_body-Keeps, get-Keeps, put-Keeps,
  uninstall-Keeps,
}
use ctrlxt_kernel.Security.{
  Flags, Settings, level_maximum, out_of_range, create_context, set_level, set_flags, init, exit,
  get_context, put_context,
}

-- The calls that change a context, each with what the outside answers.
pub data Call : Type 0 where
  inits : Option ℕ → Call
  creates : (kzalloc : Option ℕ) (level flags : ℕ) → Call
  gets exits : Call
  puts : Pointer → Call
  sets_level : Pointer → ℕ → Call
  sets_flags : Pointer → ℕ → Call

unfoldable pub step : Flags → Call → Cmd (Contexts Settings) (Unit {0})
step f (inits k) = init f k >> pure tt
step f (creates k l w) = create_context k l w >> pure tt
step f gets = get_context >> pure tt
step f exits = exit
step f (puts p) = put_context p
step f (sets_level p l) = set_level p l >> pure tt
step f (sets_flags p w) = set_flags p w >> pure tt

abbrev pub Allowed : Settings → Type 0
Allowed c = c.security_level ≤ level_maximum

-- No allocated context has a level above the highest.
abbrev pub InRange : Contexts Settings → Type 0
InRange = Bodies Allowed

ignored :
    {A : Type 0} {r : Run (Contexts Settings) A}
    → Keeps Allowed r
    → Keeps Allowed (and_then r λ _. pure tt)
ignored h = Ends-then h λ _ _ z. ended z

create_context-Keeps :
    (k : Option ℕ) (level flags : ℕ) (m : Contexts Settings)
    → InRange m
    → Keeps Allowed (create_context k level flags m)
unfolding create_context
create_context-Keeps k l w m v =
    if_cases {A = Cmd (Contexts Settings) Pointer} (λ r. Keeps Allowed (r m)) (out_of_range l) _ _
      (λ _. ended v) (λ h. create-Keeps Allowed k _ m (ground arith) v)

set_level-Keeps :
    (p : Pointer) (level : ℕ) (m : Contexts Settings)
    → InRange m
    → Keeps Allowed (set_level p level m)
unfolding set_level
set_level-Keeps null l m v = ended v
set_level-Keeps (addr a) l m v =
    if_cases {A = Cmd (Contexts Settings) ℤ} (λ r. Keeps Allowed (r m)) (out_of_range l) _ _
      (λ _. ended v)
      (λ h.
        Ends-then
          (update_body-Keeps Allowed (λ c. record c { security_level = l }) (addr a) m
            (λ _ _. ground arith) v)
          λ _ _ z. ended z)
set_level-Keeps (err_ptr e) l m v =
    if_cases {A = Cmd (Contexts Settings) ℤ} (λ r. Keeps Allowed (r m)) (out_of_range l) _ _
      (λ _. ended v) (λ _. faulted)

set_flags-Keeps :
    (p : Pointer) (flags : ℕ) (m : Contexts Settings)
    → InRange m
    → Keeps Allowed (set_flags p flags m)
unfolding set_flags
set_flags-Keeps null w m v = ended v
set_flags-Keeps (addr a) w m v =
    Ends-then (update_body-Keeps Allowed (λ c. record c { flags = w }) (addr a) m (λ _ q. q) v)
      λ _ _ z. ended z
set_flags-Keeps (err_ptr e) w m v = faulted

-- Every call keeps all levels in range.
pub step-InRange :
    (f : Flags) (o : Call) (m : Contexts Settings) → InRange m → Ends (λ _. InRange) (step f o m)
unfolding step init
step-InRange f (inits k) m v = ignored (install-Keeps Allowed k _ m (omega arith) v)
step-InRange f (creates k l w) m v = ignored (create_context-Keeps k l w m v)
step-InRange f gets m v = ignored (get-Keeps Allowed m v)
step-InRange f exits m v = uninstall-Keeps Allowed m v
step-InRange f (puts p) m v = put-Keeps Allowed p m v
step-InRange f (sets_level p l) m v = ignored (set_level-Keeps p l m v)
step-InRange f (sets_flags p w) m v = ignored (set_flags-Keeps p w m v)

pub run_calls : Flags → List Call → Cmd (Contexts Settings) (Unit {0})
run_calls f [] = pure tt
run_calls f (o ∷ rest) = step f o >> run_calls f rest

-- No history of calls ends with a level above the highest, if none was there before.
pub run_calls-InRange :
    (f : Flags) (calls : List Call) (m : Contexts Settings)
    → InRange m
    → Ends (λ _. InRange) (run_calls f calls m)
unfolding run_calls
run_calls-InRange f [] m v = ended v
run_calls-InRange f (o ∷ rest) m v =
    Ends-then (step-InRange f o m v) λ _ n w. run_calls-InRange f rest n w

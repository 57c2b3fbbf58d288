-- ===== src/Performance/Sampling.antt =====
-- The sampling of one context, against a machine of two states.
use ctrlxt_kernel.Base.{
  ℕ, ◌≡◌, refl, sym, true, false, Option, none, some, List, [], ◌∷◌, ℤ, if◌then◌else◌, Bool-cases,
  inl, inr,
}
use ctrlxt_kernel.Kernel.Errno.{success, einval, ebusy}
use ctrlxt_kernel.Kernel.Pointer.{addr}
use ctrlxt_kernel.Kernel.Run.{Cmd, pure, ◌>>=◌, write-read, Returns, returns, Returns-then}
use ctrlxt_kernel.Contexts.Defs.{Context, Contexts, load, update_body}
use ctrlxt_kernel.Performance.{
  Sampler, start_sampling, stop_sampling, get_sampling_duration, ktime_sub, begin_sampling,
  end_sampling,
}

-- The calls on one context, each with its reading of the clock.
pub data SamplingOp : Type 0 where
  starts stops asks : (now : ℕ) → SamplingOp

-- A return code, and the duration where one is written.
abbrev pub Answer : Type 0
Answer = ℤ × Option ℕ

-- The machine: it is idle (`none`), or samples since a time.
unfoldable pub machine : SamplingOp → Option ℕ → Answer × Option ℕ
machine (starts now) none = ((success, none), some now)
machine (starts now) (some t) = ((ebusy, none), some t)
machine (stops now) none = ((einval, none), none)
machine (stops now) (some t) = ((success, none), none)
machine (asks now) none = ((einval, none), none)
machine (asks now) (some t) = ((success, some (ktime_sub now t)), some t)

pub machine_all : List SamplingOp → Option ℕ → List Answer × Option ℕ
machine_all [] s = ([], s)
machine_all (o ∷ rest) s =
    let (x, t) = machine o s in let (xs, u) = machine_all rest t in (x ∷ xs, u)

unfoldable pub call : SamplingOp → ℕ → Cmd (Contexts Sampler) Answer
call (starts now) a m = (do r ← start_sampling now (addr a); pure (r, none)) m
call (stops now) a m = (do r ← stop_sampling now (addr a); pure (r, none)) m
call (asks now) a m = get_sampling_duration now (addr a) m

pub call_all : List SamplingOp → ℕ → Cmd (Contexts Sampler) (List Answer)
call_all [] a = pure []
call_all (o ∷ rest) a = do x ← call o a; xs ← call_all rest a; pure (x ∷ xs)

-- What the fields of a context say of the machine.
abbrev pub view : Sampler → Option ℕ
view b = if b.sampling_active then some b.sampling_start else none

-- The context at an address is allocated and is in the given state of the machine.
abbrev pub Shows : ℕ → Option ℕ → Contexts Sampler → Type 0
Shows a s m = (c : Context Sampler) × (m.heap a ≡ some c) × (view c.body ≡ s)

abbrev begun : ℕ → Sampler → Sampler
begun now b = record b { sampling_active = true; sampling_start = now }

abbrev done : ℕ → Sampler → Sampler
done now b = record b { sampling_active = false; sampling_end = now }

call-machine :
    (o : SamplingOp) (a : ℕ) (c : Context Sampler) (m : Contexts Sampler)
    → m.heap a ≡ some c
    → Returns
        (λ x n. (x ≡ (machine o (view c.body)).0) × Shows a (machine o (view c.body)).1 n)
        (call o a m)
unfolding call start_sampling stop_sampling get_sampling_duration update_body machine
call-machine (starts now) a c m e = elim (Bool-cases c.body.sampling_active) [
  | inl h ↦ rw (e, load, h) (returns (refl, (c, e, rw h refl)))
  | inr h ↦
      rw (e, load, h)
        (rw (e, begin_sampling, load)
          (returns (refl, (record c { body = begun now c.body }, write-read m.heap a _, refl))))
]
call-machine (stops now) a c m e = elim (Bool-cases c.body.sampling_active) [
  | inl h ↦
      rw (e, load, h)
        (rw (e, end_sampling, load)
          (returns (refl, (record c { body = done now c.body }, write-read m.heap a _, refl))))
  | inr h ↦ rw (e, load, h) (returns (refl, (c, e, rw h refl)))
]
call-machine (asks now) a c m e = elim (Bool-cases c.body.sampling_active) [
  | inl h ↦ rw (e, load, h) (returns (refl, (c, e, rw h refl)))
  | inr h ↦ rw (e, load, h) (returns (refl, (c, e, rw h refl)))
]

-- Any calls to start, stop and ask on an allocated context give the answers of the machine, and
-- leave the context in its state.
pub call_all-machine_all :
    (ops : List SamplingOp) (a : ℕ) (s : Option ℕ) (m : Contexts Sampler)
    → Shows a s m
    → Returns
        (λ xs n. (xs ≡ (machine_all ops s).0) × Shows a (machine_all ops s).1 n)
        (call_all ops a m)
unfolding call_all machine_all
call_all-machine_all [] a s m v = returns (refl, v)
call_all-machine_all (o ∷ rest) a s m v =
    let (c, e, r) = v in
    let first : Returns (λ x n. (x ≡ (machine o s).0) × Shows a (machine o s).1 n) (call o a m) =
      rw (sym r) (call-machine o a c m e) in
    Returns-then first λ x n w.
      Returns-then (call_all-machine_all rest a (machine o s).1 n w.1)
        λ xs k y. returns (rw (w.0, y.0) refl, y.1)

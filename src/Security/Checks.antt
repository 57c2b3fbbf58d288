-- ===== src/Security/Checks.antt =====
-- check_policy, and what a context that passes the default policy can be used for.
use Prim.Native.Nat.{bit_and}
use ctrlxt_kernel.Base.{
  ℕ, ◌≡◌, ◌≢◌, ◌↔◌, ◌≤◌, refl, sym, ◌∙◌, false, some, arith, bit_and_self, left_of_union,
  right_of_union,
}
use ctrlxt_kernel.Kernel.Errno.{success}
use ctrlxt_kernel.Kernel.Pointer.{addr}
use ctrlxt_kernel.Kernel.Run.{ok, result_of, Returns, returns, write, write-read}
use ctrlxt_kernel.Contexts.Defs.{Context, Contexts, fresh, install}
use ctrlxt_kernel.Contexts.References.{IsHeld}
use ctrlxt_kernel.Security.{
  Flags, Settings, Policy, verdict, check_policy, default_policy, init, init_encryption,
  init_authentication, require,
}

-- What check_policy promises.
abbrev pub Meets : Settings → Policy → Type 0
Meets c p =
    (p.min_security_level ≤ c.security_level)
    × (bit_and c.flags p.required_flags ≡ p.required_flags)

module _ (a : ℕ) (c : Context Settings) (m : Contexts Settings) (e : m.heap a ≡ some c) where
  check_policy-verdict : (p : Policy) → check_policy (addr a) (some p) m ≡ ok (verdict c.body p) m
  unfolding check_policy
  check_policy-verdict p = ground (arith, e)

  verdict_of_Meets : (p : Policy) → Meets c.body p → verdict c.body p ≡ success
  verdict_of_Meets p (l, f) = ground arith

  Meets-of_verdict : (p : Policy) → verdict c.body p ≡ success → Meets c.body p
  Meets-of_verdict p h = (ground arith, ground arith)

  -- On an allocated context check_policy returns 0 exactly if the level is at least the
  -- policy's and every required flag is set, and it changes nothing.
  pub check_policy-Meets :
      (p : Policy) → (check_policy (addr a) (some p) m ≡ ok success m) ↔ Meets c.body p
  check_policy-Meets p = (
    λ h. Meets-of_verdict p (result_of (sym (check_policy-verdict p) ∙ h)),
    λ h. rw (check_policy-verdict p, verdict_of_Meets p h) refl,
  )

  require-success :
      (mask : ℕ) → bit_and c.body.flags mask ≢ 0 → require mask (addr a) m ≡ ok success m
  require-success mask h = ground (arith, e, h)

  -- An allocated context that passes the default policy can be used for encryption and for
  -- authentication, where the two masks are not empty.
  pub default_policy-supports :
      (f : Flags)
      → f.encryption ≢ 0
      → f.authentication ≢ 0
      → check_policy (addr a) (some (default_policy f)) m ≡ ok success m
      → (init_encryption f (addr a) m ≡ ok success m)
        × (init_authentication f (addr a) m ≡ ok success m)
  unfolding init_encryption init_authentication
  default_policy-supports f en au h =
      let (l, all) = (check_policy-Meets (default_policy f)).0 h in
      (
        require-success f.encryption
            λ z. en (left_of_union c.body.flags f.encryption f.authentication all z),
        require-success f.authentication
            λ z. au (right_of_union c.body.flags f.encryption f.authentication all z),
      )

-- When the context is allocated and the lock is free, quantum_security_init returns 0 and leaves a
-- global context of one reference that passes the default policy.
pub init-passes :
    (f : Flags) (a : ℕ) (m : Contexts Settings)
    → m.locked ≡ false
    → Returns
        (λ ret n.
          (ret ≡ success)
          × IsHeld a 0 n
          × (check_policy (addr a) (some (default_policy f)) n ≡ ok success n))
        (init f (some a) m)
unfolding init install
init-passes f a m u =
    let p = default_policy f in
    let s : Settings = record { security_level = 2; flags = p.required_flags } in
    let c : Context Settings = fresh s in
    let n : Contexts Settings = record m {
      heap = write m.heap a (some c);
      global_context = addr a;
      locked = false;
    } in
    let e = write-read m.heap a (some c) in
    rw u (
      returns (
        refl,
        record { global = refl; context = (c, e, refl); unlocked = refl },
        (check_policy-Meets a c n e p).1 (omega arith, bit_and_self p.required_flags),
      ))

-- ===== src/Kunit/Security.antt =====
-- The tests of the security module in kernel/tests/test_security_perf.c.
use Prim.Native.Nat.{bit_or, bit_and}
use ctrlxt_kernel.Base.{
  ℕ, ◌≡◌, ◌≢◌, refl, Bool, true, false, Option, none, some, List, [], ◌∷◌, is_zero, ◌==◌, arith,
  bit_and_self, eqb_refl, left_covered, right_covered,
}
use ctrlxt_kernel.Kernel.Errno.{success}
use ctrlxt_kernel.Kernel.Pointer.{Pointer, addr}
use ctrlxt_kernel.Kernel.Run.{ok, pure, ◌>>=◌, ◌>>◌, Returns, returns, write-read}
use ctrlxt_kernel.Contexts.Defs.{Context, Contexts, load, create, fresh}
use ctrlxt_kernel.Contexts.Holding.{holding, load-holding, update_body-holding, put-holding}
use ctrlxt_kernel.Security.{
  Cmd_, Flags, Settings, Policy, level_standard, verdict, create_context, set_level, set_flags,
  check_policy, put_context, init_encryption, init_authentication, init_access_control,
  init_audit_log, init_isolation, require,
}
use ctrlxt_kernel.Kunit.{all_true, asserting}

abbrev pub level_high : ℕ
level_high = 3

module _ (a : ℕ) (m : Contexts Settings) where
  check_policy-holding :
      (p : Policy) (c : Context Settings)
      → check_policy (addr a) (some p) (holding a m c) ≡ ok (verdict c.body p) (holding a m c)
  unfolding check_policy
  check_policy-holding p c = rw (load, write-read) refl

  require-holding :
      (mask : ℕ) (c : Context Settings)
      → bit_and c.body.flags mask ≡ mask
      → mask ≢ 0
      → require mask (addr a) (holding a m c) ≡ ok success (holding a m c)
  require-holding mask c covers nonzero =
      let e : (mask == 0) ≡ false = ground (arith, nonzero) in
      rw (load, write-read) (rw (covers, e) refl)

module _ (f : Flags) where
  open f use {encryption, authentication, access_control, audit_log, isolation}

  -- `policy` of the test.
  abbrev pub test_policy : Policy
  test_policy = record {
    min_security_level = level_standard;
    required_flags = access_control;
    optional_flags = 0;
  }

  -- test_security_context behind KUNIT_ASSERT_NOT_ERR_OR_NULL.
  abbrev pub context_expectations : Pointer → Cmd_ (List Bool)
  context_expectations ctx = do
    c0 ← load ctx
    ret1 ← set_level ctx level_high
    c1 ← load ctx
    ret2 ← set_flags ctx access_control
    c2 ← load ctx
    ret3 ← check_policy ctx (some test_policy)
    put_context ctx
    pure (
        (c0.body.security_level == level_standard)
        ∷ is_zero ret1
        ∷ (c1.body.security_level == level_high)
        ∷ is_zero ret2
        ∷ (c2.body.flags == access_control)
        ∷ is_zero ret3
        ∷ [])

  unfoldable pub test_security_context : (kzalloc : Option ℕ) → Cmd_ (List Bool)
  test_security_context kzalloc m =
      (do
        ctx ← create_context kzalloc level_standard (bit_or encryption authentication)
        asserting context_expectations ctx)
        m

  -- test_security_operations behind KUNIT_ASSERT_NOT_ERR_OR_NULL.
  abbrev pub operation_expectations : Pointer → Cmd_ (List Bool)
  operation_expectations ctx = do
    ret1 ← init_encryption f ctx
    ret2 ← init_authentication f ctx
    ret3 ← init_access_control f ctx
    ret4 ← init_audit_log f ctx
    ret5 ← init_isolation f ctx
    put_context ctx
    pure (is_zero ret1 ∷ is_zero ret2 ∷ is_zero ret3 ∷ is_zero ret4 ∷ is_zero ret5 ∷ [])

  abbrev pub all_flags : ℕ
  all_flags =
      bit_or (bit_or (bit_or (bit_or encryption authentication) access_control) audit_log) isolation

  unfoldable pub test_security_operations : (kzalloc : Option ℕ) → Cmd_ (List Bool)
  test_security_operations kzalloc m =
      (do
        ctx ← create_context kzalloc level_standard all_flags
        asserting operation_expectations ctx)
        m

  -- Where kzalloc returns an unused address and the lock is free, every expectation of
  -- test_security_context holds, whatever the masks are, and the test leaves the contexts as they
  -- were.
  pub test_security_context-passes :
      (a : ℕ) (m : Contexts Settings)
      → m.locked ≡ false
      → m.heap a ≡ none
      → Returns (λ es n. (all_true es ≡ true) × (n ≡ m)) (test_security_context (some a) m)
  unfolding test_security_context create_context create set_level set_flags
  test_security_context-passes a m u e =
      let c0 : Context Settings =
        fresh (record { security_level = 2; flags = bit_or encryption authentication }) in
      let c1 : Context Settings =
        fresh (record { security_level = 3; flags = bit_or encryption authentication }) in
      let c2 : Context Settings = fresh (record { security_level = 3; flags = access_control }) in
      rw
        (
          load-holding a m c0,
          update_body-holding a m (λ c. record c { security_level = level_high }) c0,
          load-holding a m c1,
          update_body-holding a m (λ c. record c { flags = access_control }) c1,
          load-holding a m c2,
          check_policy-holding a m test_policy c2,
          put-holding a m c2 u e refl refl,
        )
        (returns (ground (arith, bit_and_self access_control, eqb_refl access_control), refl))

  -- Where kzalloc returns an unused address, the lock is free and no mask is empty, every
  -- expectation of test_security_operations holds, and the test leaves the contexts as they were.
  pub test_security_operations-passes :
      (a : ℕ) (m : Contexts Settings)
      → encryption ≢ 0
      → authentication ≢ 0
      → access_control ≢ 0
      → audit_log ≢ 0
      → isolation ≢ 0
      → m.locked ≡ false
      → m.heap a ≡ none
      → Returns (λ es n. (all_true es ≡ true) × (n ≡ m)) (test_security_operations (some a) m)
  unfolding test_security_operations create_context create init_encryption init_authentication
      init_access_control init_audit_log init_isolation
  test_security_operations-passes a m n1 n2 n3 n4 n5 u e =
      let c : Context Settings = fresh (record { security_level = 2; flags = all_flags }) in
      let two = bit_or encryption authentication in
      let three = bit_or two access_control in
      let four = bit_or three audit_log in
      let h5 = bit_and_self all_flags in
      let h4 = left_covered all_flags four isolation h5 in
      let h3 = left_covered all_flags three audit_log h4 in
      let h2 = left_covered all_flags two access_control h3 in
      rw
        (
          require-holding a m encryption c (left_covered all_flags encryption authentication h2) n1,
          require-holding a m authentication c
              (right_covered all_flags encryption authentication h2) n2,
          require-holding a m access_control c (right_covered all_flags two access_control h3) n3,
          require-holding a m audit_log c (right_covered all_flags three audit_log h4) n4,
          require-holding a m isolation c (right_covered all_flags four isolation h5) n5,
          put-holding a m c u e refl refl,
        )
        (returns (refl, refl))

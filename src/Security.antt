-- ===== src/Security.antt =====
-- The security module, kernel/security/security.c, over the contexts of Contexts. The source
-- names its fields security_level, flags, private_data and ref_count, and its five masks
-- QUANTUM_SECURITY_FLAG_ENCRYPTION and so on. kernel/include/security.h declares other names for
-- both, so the masks are an argument here; the levels are the header's. A policy that is `none`
-- is a NULL pointer.
pub mod Checks
pub mod Levels
use Prim.Native.Nat.{bit_and, bit_or}
use ctrlxt_kernel.Base.{
  ℕ, ◌≡◌, Bool, true, false, not, ◌||◌, Option, none, some, ℤ, ltb, ◌==◌, if◌then◌else◌,
}
use ctrlxt_kernel.Kernel.Errno.{success, eperm, einval, enotsup}
use ctrlxt_kernel.Kernel.Pointer.{Pointer, null, addr, err_ptr}
use ctrlxt_kernel.Kernel.Run.{ok, fault, Cmd, pure, ◌>>=◌, ◌>>◌}
use ctrlxt_kernel.Contexts.Defs.{
  Context, Contexts, load, install, uninstall, create, get, put, update_body,
}

pub record Flags : Type 0 where
  pub encryption : ℕ
  pub authentication : ℕ
  pub access_control : ℕ
  pub audit_log : ℕ
  pub isolation : ℕ

-- The fields of a context that are this module's own.
pub record Settings : Type 0 where
  pub security_level : ℕ
  pub flags : ℕ

pub record Policy : Type 0 where
  pub min_security_level : ℕ
  pub required_flags : ℕ
  pub optional_flags : ℕ

abbrev pub level_none : ℕ
level_none = 0

abbrev pub level_standard : ℕ
level_standard = 2

abbrev pub level_maximum : ℕ
level_maximum = 4

abbrev pub Cmd_ : Type 0 → Type 0
Cmd_ A = Cmd (Contexts Settings) A

-- The test of a level in create_context and set_level.
abbrev pub out_of_range : ℕ → Bool
out_of_range level = ltb level level_none || ltb level_maximum level

unfoldable pub create_context : Option ℕ → ℕ → ℕ → Cmd_ Pointer
create_context kzalloc level flags =
    if out_of_range level
    then pure (err_ptr einval)
    else create kzalloc (record { security_level = level; flags = flags })

unfoldable pub set_level : Pointer → ℕ → Cmd_ ℤ
set_level null level = pure einval
set_level (addr a) level =
    if out_of_range level
    then pure einval
    else do update_body (λ c. record c { security_level = level }) (addr a); pure success
set_level (err_ptr e) level = if out_of_range level then pure einval else λ _. fault

unfoldable pub get_level : Pointer → Cmd_ ℕ
get_level null = pure level_none
get_level (addr a) = do c ← load (addr a); pure c.body.security_level
get_level (err_ptr e) = λ _. fault

unfoldable pub set_flags : Pointer → ℕ → Cmd_ ℤ
set_flags null flags = pure einval
set_flags (addr a) flags = do update_body (λ c. record c { flags = flags }) (addr a); pure success
set_flags (err_ptr e) flags = λ _. fault

unfoldable pub get_flags : Pointer → Cmd_ ℕ
get_flags null = pure 0
get_flags (addr a) = do c ← load (addr a); pure c.body.flags
get_flags (err_ptr e) = λ _. fault

-- The two tests of check_policy.
abbrev pub verdict : Settings → Policy → ℤ
verdict c policy =
    if ltb c.security_level policy.min_security_level
    then eperm
    else if not (bit_and c.flags policy.required_flags == policy.required_flags)
    then eperm
    else success

unfoldable pub check_policy : Pointer → Option Policy → Cmd_ ℤ
check_policy null policy = pure einval
check_policy (addr a) none = pure einval
check_policy (addr a) (some policy) = do c ← load (addr a); pure (verdict c.body policy)
check_policy (err_ptr e) none = pure einval
check_policy (err_ptr e) (some policy) = λ _. fault

-- The common code of the five functions quantum_security_init_*.
abbrev pub require : ℕ → Pointer → Cmd_ ℤ
require mask null = pure einval
require mask (addr a) = do
  c ← load (addr a)
  pure (if bit_and c.body.flags mask == 0 then enotsup else success)
require mask (err_ptr e) = λ _. fault

module _ (f : Flags) where
  open f use {encryption, authentication, access_control, audit_log, isolation}

  abbrev pub default_policy : Policy
  default_policy = record {
    min_security_level = level_standard;
    required_flags = bit_or encryption authentication;
    optional_flags = bit_or access_control audit_log;
  }

  unfoldable pub init : Option ℕ → Cmd_ ℤ
  init kzalloc =
      install kzalloc
        record { security_level = level_standard; flags = default_policy.required_flags }

  unfoldable pub init_encryption : Pointer → Cmd_ ℤ
  init_encryption = require encryption

  unfoldable pub init_authentication : Pointer → Cmd_ ℤ
  init_authentication = require authentication

  unfoldable pub init_access_control : Pointer → Cmd_ ℤ
  init_access_control = require access_control

  unfoldable pub init_audit_log : Pointer → Cmd_ ℤ
  init_audit_log = require audit_log

  unfoldable pub init_isolation : Pointer → Cmd_ ℤ
  init_isolation = require isolation

-- The three functions on the global context.
abbrev pub exit : Cmd (Contexts Settings) (Unit {0})
exit = uninstall

abbrev pub get_context : Cmd (Contexts Settings) Pointer
get_context = get

abbrev pub put_context : Pointer → Cmd (Contexts Settings) (Unit {0})
put_context = put

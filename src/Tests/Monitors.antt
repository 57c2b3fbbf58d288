-- ===== src/Tests/Monitors.antt =====
-- Runs of the contexts, the security module and the performance monitor:
-- kernel/security/security.c and kernel/performance/performance.c.
use ctrlxt_kernel.Base.{ℕ, ◌<◌, ◌^◌, ◌≡◌, refl, false, none, some, [], ◌∷◌, arith}
use ctrlxt_kernel.Kernel.Errno.{success}
use ctrlxt_kernel.Kernel.Pointer.{null, addr}
use ctrlxt_kernel.Kernel.Run.{ok, fault, write, Returns, Ends}
use ctrlxt_kernel.Contexts.Defs.{Context, Contexts, uninstall, put}
use ctrlxt_kernel.Contexts.References.{
  IsHeld, act_all, act_all-IsHeld, take_one, give_back, uninstall-put_fault,
}
use ctrlxt_kernel.Security.{
  Flags, Settings, check_policy, default_policy, init_encryption, init_authentication,
}
use ctrlxt_kernel.Security.Checks.{default_policy-supports}
use ctrlxt_kernel.Security.Levels.{InRange, run_calls, run_calls-InRange, inits, sets_level}
use ctrlxt_kernel.Performance.{Sampler, Metric, Perf, idle_sampler, zero_stats}
use ctrlxt_kernel.Performance.Sampling.{
  call_all, machine_all, Shows, call_all-machine_all, starts, stops, asks,
}
use ctrlxt_kernel.Performance.Metrics.{reports, moves, reported}

abbrev masks : Flags
masks = record {
  encryption = 1;
  authentication = 2;
  access_control = 4;
  audit_log = 8;
  isolation = 16;
}

-- A global context at address 5 with one reference of the module and `holders` of clients.
abbrev secured : ℕ → Context Settings
secured holders = record {
  body = record { security_level = 3; flags = 7 };
  private_data = none;
  ref_count = ℕ.suc holders;
}

abbrev held : ℕ → Contexts Settings
held holders = record {
  heap = write (λ _. none) 5 (some (secured holders));
  global_context = addr 5;
  locked = false;
  freed_data = [];
}

secured_at : (holders : ℕ) → (held holders).heap 5 ≡ some (secured holders)
unfolding write
secured_at holders = refl

held-IsHeld : (holders : ℕ) → IsHeld 5 holders (held holders)
held-IsHeld holders = record {
  global = refl;
  context = (secured holders, secured_at holders, refl);
  unlocked = refl;
}

act_all-IsHeld_example :
    Returns (λ _ m. IsHeld 5 1 m) (act_all (addr 5) (take_one ∷ take_one ∷ give_back ∷ []) (held 0))
act_all-IsHeld_example =
    act_all-IsHeld 5 0 1 (take_one ∷ take_one ∷ give_back ∷ []) (held 0) (held-IsHeld 0)
      (omega arith) refl

uninstall-put_fault_example : Returns (λ _ m. put (addr 5) m ≡ fault) (uninstall (held 1))
uninstall-put_fault_example = uninstall-put_fault 5 0 (held 1) (held-IsHeld 1)

passing : check_policy (addr 5) (some (default_policy masks)) (held 0) ≡ ok success (held 0)
unfolding check_policy write
passing = refl

default_policy-supports_example :
    (init_encryption masks (addr 5) (held 0) ≡ ok success (held 0))
    × (init_authentication masks (addr 5) (held 0) ≡ ok success (held 0))
default_policy-supports_example =
    default_policy-supports 5 (secured 0) (held 0) (secured_at 0) masks (omega arith) (omega arith)
      passing

abbrev no_contexts : Contexts Settings
no_contexts = record { heap = λ _. none; global_context = null; locked = false; freed_data = [] }

run_calls-InRange_example :
    Ends
      (λ _. InRange)
      (run_calls masks
        (inits (some 5) ∷ sets_level (addr 5) 9 ∷ sets_level (addr 5) 4 ∷ [])
        no_contexts)
run_calls-InRange_example =
    run_calls-InRange masks (inits (some 5) ∷ sets_level (addr 5) 9 ∷ sets_level (addr 5) 4 ∷ [])
      no_contexts (λ a c e. cc)

abbrev idle : Contexts Sampler
idle = record {
  heap =
      write (λ _. none) 5
        (some (record { body = idle_sampler; private_data = none; ref_count = 1 }));
  global_context = addr 5;
  locked = false;
  freed_data = [];
}

idle-Shows : Shows 5 none idle
unfolding write
idle-Shows = (record { body = idle_sampler; private_data = none; ref_count = 1 }, refl, refl)

call_all-machine_all_example :
    Returns
      (λ xs m.
        (xs ≡ (machine_all (starts 10 ∷ asks 25 ∷ stops 30 ∷ asks 31 ∷ []) none).0)
        × Shows 5 (machine_all (starts 10 ∷ asks 25 ∷ stops 30 ∷ asks 31 ∷ []) none).1 m)
      (call_all (starts 10 ∷ asks 25 ∷ stops 30 ∷ asks 31 ∷ []) 5 idle)
call_all-machine_all_example =
    call_all-machine_all (starts 10 ∷ asks 25 ∷ stops 30 ∷ asks 31 ∷ []) 5 none idle idle-Shows

abbrev one_metric : Metric
one_metric = record { metric_type = 0; value = 0; threshold = 80; timestamp = 0 }

abbrev measured : Perf
measured = record {
  metrics = write (λ _. none) 3 (some one_metric);
  stats = zero_stats;
  locked = false;
}

one_metric_at : measured.metrics 3 ≡ some one_metric
unfolding write
one_metric_at = refl

two_fit : reported (reports 1 2 90 ∷ moves 95 ∷ reports 3 4 90 ∷ []) < 2 ^ 32
unfolding reported
two_fit = omega arith

-- ===== src/Qdev/History.antt =====
-- Histories of calls on the quantum core, up to quantum_exit.
use ctrlxt_kernel.Base.{
  ℕ, ◌≡◌, refl, true, false, Option, none, some, List, [], has, erase-Distinct, eqb_refl,
}
use ctrlxt_kernel.Kernel.Run.{
  Cmd, pure, ◌>>=◌, ◌>>◌, Returns, returns, Returns-then, Returns-mono, Heap, write-read,
}
use ctrlxt_kernel.Kernel.History.{run_all, Lawful, run_all-keeps}
use ctrlxt_kernel.Qdev.{
  QDevice, Core, load, kfree, list_del, device_init, device_cleanup, apply_gate, measure,
  exit_devices, exit,
}
use ctrlxt_kernel.Qdev.Owned.{Owns, nothing, more, IsSound, Owns-write, owned_at, Owns-erase}

-- The calls on the core; an initialisation comes with what kzalloc returns.
pub data CoreOp : Type 0 where
  inits : (dev state : Option ℕ) → CoreOp
  cleans : Option ℕ → CoreOp
  gates : Option ℕ → (qubit gate_type : ℕ) → CoreOp
  measures : Option ℕ → (qubit : ℕ) → (result : Option ℕ) → CoreOp

unfoldable pub step : CoreOp → Cmd Core (Unit {0})
step (inits dev state) m = (device_init dev state >> pure tt) m
step (cleans dev) m = device_cleanup dev m
step (gates dev qubit gate_type) m = (apply_gate dev qubit gate_type >> pure tt) m
step (measures dev qubit result) m = (measure dev qubit result >> pure tt) m

abbrev pub Exists : Option ℕ → Core → Type 0
Exists none m = Unit {0}
Exists (some a) m = (d : QDevice) × (m.heap a ≡ some d)

abbrev pub Unlisted : Option ℕ → Core → Type 0
Unlisted none m = Unit {0}
Unlisted (some a) m = has a m.devices ≡ false

abbrev pub Listed : Option ℕ → Core → Type 0
Listed none m = Unit {0}
Listed (some a) m = has a m.devices ≡ true

abbrev pub Unused : Option ℕ → Core → Type 0
Unused none m = Unit {0}
Unused (some s) m = has s m.states ≡ false

-- What a caller keeps to: pointers are NULL or to a device, a device is initialised once before
-- it is cleaned up, and kzalloc returns memory that is not in use.
abbrev pub Permitted : CoreOp → Core → Type 0
Permitted (inits dev state) m = Exists dev m × Unlisted dev m × Unused state m
Permitted (cleans dev) m = Listed dev m
Permitted (gates dev qubit gate_type) m = Exists dev m
Permitted (measures dev qubit result) m = Exists dev m

device_init-IsSound :
    (dev state : Option ℕ) (m : Core)
    → IsSound m
    → Exists dev m
    → Unlisted dev m
    → Unused state m
    → Returns (λ _. IsSound) (device_init dev state m)
unfolding device_init
device_init-IsSound none state m v x u f = returns v
device_init-IsSound (some a) none m v (d, e) u f =
    rw (e, load)
      (returns (record { owns = Owns-write a _ u v.owns; apart = v.apart; unshared = v.unshared }))
device_init-IsSound (some a) (some s) m v (d, e) u f =
    rw (e, load, u)
      (returns (record {
        owns =
            more (record d { quantum_state = some s }) (write-read m.heap a _) refl
              (Owns-write a _ u v.owns);
        apart = (u, v.apart);
        unshared = (f, v.unshared);
      }))

device_cleanup-IsSound :
    (dev : Option ℕ) (m : Core)
    → IsSound m
    → Listed dev m
    → Returns (λ _. IsSound) (device_cleanup dev m)
unfolding device_cleanup
device_cleanup-IsSound none m v h = returns v
device_cleanup-IsSound (some a) m v h =
    let (d, s, e, f, k) = owned_at a v.owns h in
    rw (e, load, f, k, h)
      (returns (record {
        owns = Owns-erase a s d v.owns v.unshared h e f;
        apart = erase-Distinct a m.devices v.apart;
        unshared = erase-Distinct s m.states v.unshared;
      }))

read-IsSound :
    {A : Type 0} (k : QDevice → A) (a : ℕ) (m : Core)
    → IsSound m
    → Exists (some a) m
    → Returns (λ _. IsSound) ((load a >>= λ d. pure (k d)) m)
read-IsSound k a m v (d, e) = rw (e, load) (returns v)

step-IsSound :
    (o : CoreOp) (m : Core) → IsSound m → Permitted o m → Returns (λ _. IsSound) (step o m)
unfolding step apply_gate measure
step-IsSound (inits dev state) m v (x, u, f) =
    Returns-then (device_init-IsSound dev state m v x u f) (λ _ n w. returns w)
step-IsSound (cleans dev) m v h = device_cleanup-IsSound dev m v h
step-IsSound (gates none qubit g) m v x = returns v
step-IsSound (gates (some a) qubit g) m v x =
    Returns-then (read-IsSound _ a m v x) (λ _ n w. returns w)
step-IsSound (measures none qubit r) m v x = returns v
step-IsSound (measures (some a) qubit r) m v x =
    Returns-then (read-IsSound _ a m v x) (λ _ n w. returns w)

abbrev pub IsEmpty : Core → Type 0
IsEmpty m = (m.devices ≡ []) × (m.states ≡ [])

-- The loop frees the devices in their order.
exit_devices-IsEmpty :
    (h : Heap QDevice) (xs ss : List ℕ)
    → Owns h xs ss
    → Returns (λ _. IsEmpty) (exit_devices xs (record { devices = xs; heap = h; states = ss }))
unfolding exit_devices device_cleanup
exit_devices-IsEmpty h xs ss nothing = returns (refl, refl)
exit_devices-IsEmpty h xs ss (more {a} {s} {rest} {states} d e f o) =
    rw (e, load, f, kfree, has, eqb_refl s, list_del, eqb_refl a)
      (exit_devices-IsEmpty h rest states o)

-- The list that LIST_HEAD makes, before any quantum state is allocated.
abbrev pub loaded : Heap QDevice → Core
loaded h = record { devices = []; heap = h; states = [] }

-- A history of permitted calls from the loading of the module on ends without a fault, in a state
-- in which the allocated quantum states are those of the listed devices, one for each; quantum_exit
-- then frees each of them and leaves no device in the list.
pub run_all-exit :
    (h : Heap QDevice) (os : List CoreOp)
    → Lawful step Permitted os (loaded h)
    → Returns (λ _ m. IsSound m × Returns (λ _. IsEmpty) (exit m)) (run_all step os (loaded h))
unfolding exit
run_all-exit h os lawful =
    Returns-mono
      (run_all-keeps step Permitted IsSound step-IsSound os (loaded h)
        (record { owns = nothing; apart = tt; unshared = tt }) lawful)
      λ _ m v. (v, exit_devices-IsEmpty m.heap m.devices m.states v.owns)

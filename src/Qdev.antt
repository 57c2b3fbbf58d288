-- ===== src/Qdev.antt =====
-- The quantum core, kernel/quantum/quantum.c. `struct quantum_device` is the record `QDevice`, an
-- object that the caller owns; the list of devices is `devices`, the first first. `states` are the
-- quantum states that kzalloc has returned and kfree has not freed. To add a device that is listed
-- already, to remove one that is not, and to free a state that is not allocated are faults.
pub mod Owned
pub mod History
pub mod Gates
use ctrlxt_kernel.Base.{
  ℕ, Bool, true, false, Option, none, some, List, [], ◌∷◌, ℤ, has, erase, leb, if◌then◌else◌,
}
use ctrlxt_kernel.Kernel.Errno.{success, einval, enomem}
use ctrlxt_kernel.Kernel.Run.{Run, ok, fault, Cmd, pure, ◌>>=◌, ◌>>◌, Heap, write}

-- The name and the coherence time are not read by the code.
pub record QDevice : Type 0 where
  pub qubit_count : ℕ
  pub quantum_state : Option ℕ

pub record Core : Type 0 where
  pub devices : List ℕ
  pub heap : Heap QDevice
  pub states : List ℕ

abbrev pub load : ℕ → Cmd Core QDevice
load a m = elim (m.heap a) [ none ↦ fault | some d ↦ ok d m ]

abbrev pub store : ℕ → QDevice → Cmd Core (Unit {0})
store a d m = ok tt (record m { heap = write m.heap a (some d) })

-- `state` is what kzalloc returns.
abbrev pub kzalloc : Option ℕ → Cmd Core (Option ℕ)
kzalloc none m = ok none m
kzalloc (some s) m = ok (some s) (record m { states = s ∷ m.states })

abbrev pub kfree : Option ℕ → Cmd Core (Unit {0})
kfree none m = ok tt m
kfree (some s) m = if has s m.states then ok tt (record m { states = erase s m.states }) else fault

abbrev pub list_add : ℕ → Cmd Core (Unit {0})
list_add a m = if has a m.devices then fault else ok tt (record m { devices = a ∷ m.devices })

abbrev pub list_del : ℕ → Cmd Core (Unit {0})
list_del a m = if has a m.devices then ok tt (record m { devices = erase a m.devices }) else fault

-- The end of quantum_device_init, behind the test of the new state.
abbrev pub add_if : ℕ → Option ℕ → Cmd Core ℤ
add_if a none = pure enomem
add_if a (some s) = do list_add a; pure success

unfoldable pub device_init : Option ℕ → (state : Option ℕ) → Cmd Core ℤ
device_init none state m = ok einval m
device_init (some a) state m =
    (do d ← load a; s ← kzalloc state; store a (record d { quantum_state = s }); add_if a s) m

unfoldable pub device_cleanup : Option ℕ → Cmd Core (Unit {0})
device_cleanup none m = ok tt m
device_cleanup (some a) m = (do d ← load a; kfree d.quantum_state; list_del a) m

unfoldable pub arch_init : ℤ
arch_init = success

-- The tests of a qubit behind those of the pointers.
abbrev pub in_range : QDevice → ℕ → ℤ
in_range d qubit = if leb d.qubit_count qubit then einval else success

abbrev pub gate_code : QDevice → ℕ → ℤ
gate_code d qubit = elim d.quantum_state [ none ↦ einval | some s ↦ in_range d qubit ]

-- quantum_apply_gate
unfoldable pub apply_gate : Option ℕ → (qubit gate_type : ℕ) → Cmd Core ℤ
apply_gate none qubit gate_type m = ok einval m
apply_gate (some a) qubit gate_type m = (do d ← load a; pure (gate_code d qubit)) m

abbrev pub measure_code : QDevice → ℕ → Option ℕ → ℤ
measure_code d qubit none = einval
measure_code d qubit (some r) = elim d.quantum_state [ none ↦ einval | some s ↦ in_range d qubit ]

-- quantum_measure; `result` is the word at the caller's pointer, which is returned with the code.
unfoldable pub measure : Option ℕ → (qubit : ℕ) → (result : Option ℕ) → Cmd Core (ℤ × Option ℕ)
measure none qubit result m = ok (einval, result) m
measure (some a) qubit result m = (do d ← load a; pure (measure_code d qubit result, result)) m

-- quantum_init
unfoldable pub init : Cmd Core ℤ
init m = ok success m

-- The loop of quantum_exit, which reads the next device before it removes one.
unfoldable pub exit_devices : List ℕ → Cmd Core (Unit {0})
exit_devices [] m = ok tt m
exit_devices (a ∷ rest) m = (do device_cleanup (some a); exit_devices rest) m

-- quantum_exit
unfoldable pub exit : Cmd Core (Unit {0})
exit m = exit_devices m.devices m

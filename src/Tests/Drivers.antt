-- ===== src/Tests/Drivers.antt =====
-- Runs of the quantum device driver: kernel/drivers/quantum/quantum_device.c.
use ctrlxt_kernel.Base.{ℕ, ◌≡◌, refl, true, none, some, List, [], ◌∷◌, arith}
use ctrlxt_kernel.Kernel.Errno.{success, enomem}
use ctrlxt_kernel.Kernel.Pointer.{null, addr, err_ptr}
use ctrlxt_kernel.Kernel.Run.{write, ok, fault, ◌>>=◌, Returns}
use ctrlxt_kernel.QMem.Defs.{alloc, alloc_locked, is_exhausted, free, release_block}
use ctrlxt_kernel.Device.Ioctl.{
  Device, Command, alloc_case, free_case, ioctl, dispatch, finish, alloc_memory, free_memory,
  apply_gate,
}
use ctrlxt_kernel.Device.Ioctl.Memory.{ioctl-alloc-free, ioctl-free_memory_fault}
use ctrlxt_kernel.Kernel.History.{Lawful, run_all}
use ctrlxt_kernel.Device.Ioctl.History.{IsGood, Permitted, command, run_all-IsGood}
use ctrlxt_kernel.Device.Open.{
  System, initial, Reach, here, next, enters, releases, backs_off, open_device, entered, left,
  enter, leave,
}
use ctrlxt_kernel.Device.Open.Exclusive.{Reach-exclusive, Reach-reopen}
use ctrlxt_kernel.Device.Setup.{Outcomes, Held, init, exit, everything, nothing, init-exit}
use ctrlxt_kernel.Tests.Memory.{small_manager, small_manager-IsSound}
use ctrlxt_kernel.Tests.Quantum.{toy}

abbrev device : Device ℕ
device = record { state = 3; operation_count = 0; memory = null; qmem = small_manager }

abbrev counted_device : Device ℕ
counted_device = record device { state = 5; operation_count = 1 }

gate_run : ioctl toy (apply_gate (some (2, 1))) device ≡ ok success counted_device
unfolding ioctl dispatch finish
gate_run = refl

ioctl-alloc-free_example :
    (ioctl toy (alloc_memory (some (60, 0)) (some 7) (some 70)) >>= λ _. ioctl toy free_memory)
      device
    ≡ ok success (record device {
      operation_count = 2;
      qmem = record small_manager { freed_states = 70 ∷ [] };
    })
ioctl-alloc-free_example =
    ioctl-alloc-free toy 60 0 7 70 device small_manager-IsSound (omega arith) (omega arith)
      (omega arith) refl

failed_alloc : alloc 60 0 none none small_manager ≡ ok (err_ptr enomem) small_manager
unfolding alloc alloc_locked is_exhausted
failed_alloc = refl

ioctl-free_memory_fault_example :
    (ioctl toy (alloc_memory (some (60, 0)) none none) >>= λ _. ioctl toy free_memory) device
    ≡ fault
ioctl-free_memory_fault_example =
    ioctl-free_memory_fault toy 60 0 none none device small_manager enomem failed_alloc

-- Of two threads the first has the device open and the second is turned away.
abbrev one_holds : System
one_holds = entered (entered (initial 2) 0) 1

one_holds-Reach : Reach (initial 2) one_holds
unfolding enter
one_holds-Reach =
    next (next here (enters (initial 2) 0 refl)) (enters (entered (initial 2) 0) 1 refl)

Reach-exclusive_example : ◌≡◌ {A = ℕ} 0 0
unfolding enter
Reach-exclusive_example = Reach-exclusive 2 0 0 one_holds (omega arith) one_holds-Reach refl refl

abbrev all_left : System
all_left = left (left one_holds 1) 0

all_left-Reach : Reach (initial 2) all_left
unfolding enter leave
all_left-Reach =
    next (next one_holds-Reach (backs_off one_holds 1 refl)) (releases (left one_holds 1) 0 refl)

Reach-reopen_example : open_device all_left.open_count ≡ (1, success)
Reach-reopen_example = Reach-reopen 2 all_left (omega arith) all_left-Reach refl

abbrev fine : Outcomes
fine = record {
  dev = true;
  state = true;
  region = success;
  cdev = success;
  class = addr 1;
  device = addr 2;
}

fine_run : init fine ≡ (success, everything)
unfolding init
fine_run = refl

init-exit_example : (everything ≡ everything) × (exit everything ≡ nothing)
init-exit_example = init-exit fine everything tt tt fine_run

abbrev no_class : Outcomes
no_class = record fine { class = err_ptr enomem }

abbrev after_no_class : Held
after_no_class = (init no_class).1

no_class_run : init no_class ≡ (enomem, after_no_class)
unfolding init
no_class_run = refl

abbrev commands : List (Command ℕ)
commands =
    alloc_memory (some (60, 0)) (some 7) (some 70)
    ∷ apply_gate (some (2, 1))
    ∷ free_memory
    ∷ alloc_memory (some (90, 0)) (some 8) (some 80)
    ∷ []

commands-Lawful : Lawful (command toy) Permitted commands device
unfolding command ioctl dispatch finish alloc alloc_locked is_exhausted free write release_block
    alloc_case free_case
commands-Lawful = (refl, (tt, (refl, (refl, tt))))

run_all-IsGood_example : Returns (λ _. IsGood) (run_all (command toy) commands device)
run_all-IsGood_example =
    run_all-IsGood toy commands device small_manager-IsSound refl commands-Lawful

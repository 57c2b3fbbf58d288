-- ===== src/Device/Setup.antt =====
-- ctrlxt_quantum_device_init and quantum_exit. What the kernel's calls return is a record of
-- outcomes, and the state says which of the resources that they hand out the driver has.
use ctrlxt_kernel.Base.{Bool, true, false, ℤ, is_neg, ◌≡◌, arith, if◌then◌else◌}
use ctrlxt_kernel.Kernel.Errno.{success, enomem}
use ctrlxt_kernel.Kernel.Pointer.{Pointer, is_err, ptr_err, HasErrno}

-- The returns of kzalloc, quantum_state_alloc, alloc_chrdev_region, cdev_add, class_create and
-- device_create.
pub record Outcomes : Type 0 where
  pub dev : Bool
  pub state : Bool
  pub region : ℤ
  pub cdev : ℤ
  pub class : Pointer
  pub device : Pointer

-- The memory of quantum_dev, its quantum state, the device number, the character device known to
-- the kernel, the class and the device node.
pub record Held : Type 0 where
  pub dev : Bool
  pub state : Bool
  pub region : Bool
  pub cdev : Bool
  pub class : Bool
  pub device : Bool

abbrev pub nothing : Held
nothing = record {
  dev = false;
  state = false;
  region = false;
  cdev = false;
  class = false;
  device = false;
}

abbrev pub everything : Held
everything = record {
  dev = true;
  state = true;
  region = true;
  cdev = true;
  class = true;
  device = true;
}

-- The label `error`: the quantum state, the memory block (none is allocated yet) and the device
-- structure are freed.
abbrev pub error : ℤ → Held → ℤ × Held
error ret h = (ret, record h { state = false; dev = false })

unfoldable pub init_device : Outcomes → Held → ℤ × Held
init_device o h =
    if is_err o.device then error (ptr_err o.device) h else (success, record h { device = true })

unfoldable pub init_class : Outcomes → Held → ℤ × Held
unfolding init_device
init_class o h =
    if is_err o.class then error (ptr_err o.class) h else init_device o (record h { class = true })

unfoldable pub init_cdev : Outcomes → Held → ℤ × Held
unfolding init_class
init_cdev o h = if is_neg o.cdev then error o.cdev h else init_class o (record h { cdev = true })

unfoldable pub init_region : Outcomes → Held → ℤ × Held
unfolding init_cdev
init_region o h =
    if is_neg o.region then error o.region h else init_cdev o (record h { region = true })

-- ctrlxt_quantum_device_init, from the first allocation on.
unfoldable pub init : Outcomes → ℤ × Held
unfolding init_region
init o =
    if o.dev
    then (if o.state
        then init_region o (record nothing { dev = true; state = true })
        else error enomem (record nothing { dev = true }))
    else (enomem, nothing)

-- quantum_exit, after an initialisation that succeeded; the memory that an ioctl may have left in
-- the device is no part of this state.
unfoldable pub exit : Held → Held
exit h =
    if h.dev
    then record h {
      device = false;
      class = false;
      cdev = false;
      region = false;
      state = false;
      dev = false;
    }
    else h

-- With error pointers that hold negative codes, an initialisation that returns 0 holds every
-- resource, and unloading then gives back each one.
pub init-exit :
    (o : Outcomes) (h : Held)
    → HasErrno o.class
    → HasErrno o.device
    → init o ≡ (success, h)
    → (h ≡ everything) × (exit h ≡ nothing)
unfolding init exit
init-exit o h c d e = ground arith

-- Once the device number is allocated, initialisation ends with it allocated whatever it returns:
-- no failure behind that call gives it back.
pub init_leaks :
    (o : Outcomes) (ret : ℤ) (h : Held)
    → o.dev ≡ true
    → o.state ≡ true
    → is_neg o.region ≡ false
    → init o ≡ (ret, h)
    → h.region ≡ true
unfolding init
init_leaks o ret h d s r e = ground arith

-- When the class cannot be created, initialisation frees the device structure while the kernel
-- still holds the character device that stands in it.
pub init_dangles :
    (o : Outcomes)
    → o.dev ≡ true
    → o.state ≡ true
    → is_neg o.region ≡ false
    → is_neg o.cdev ≡ false
    → is_err o.class ≡ true
    → ((init o).1.cdev ≡ true) × ((init o).1.dev ≡ false)
unfolding init
init_dangles o d s r c k = ground arith

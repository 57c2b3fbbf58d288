-- ===== src/Uhal.antt =====
-- The driver of the hardware abstraction layer, kernel/drivers/uhal/uhal_driver.c. The device of
-- the driver is MKDEV(0, 0), and its two pointers stand for the objects that the kernel counts;
-- `majors` are the majors that character devices are registered at. The answers of the kernel's
-- calls, and the functions of kernel/include/uhal.h that the ioctl calls, are arguments.
pub mod Loading
use ctrlxt_kernel.Base.{ℕ, ◌+◌, ◌-◌, List, [], ◌∷◌, ℤ, pos, negsuc, erase}
use ctrlxt_kernel.Kernel.Errno.{success, einval}
use ctrlxt_kernel.Kernel.Pointer.{Answer, made, failed}

-- What the kernel holds for its drivers.
pub record Registry : Type 0 where
  pub classes : ℕ
  pub devices : ℕ
  pub majors : List ℕ

abbrev pub class_destroy : Registry → Registry
class_destroy m = record m { classes = m.classes - 1 }

abbrev pub device_destroy : Registry → Registry
device_destroy m = record m { devices = m.devices - 1 }

-- uhal_driver_init from register_chrdev(0, "uhal", &uhal_fops) on, which returns the major it has
-- chosen or a negative code.
unfoldable pub init_chrdev : (major : ℤ) → Registry → ℤ × Registry
init_chrdev (pos n) m = (success, record m { majors = n ∷ m.majors })
init_chrdev (negsuc n) m = (negsuc n, class_destroy (device_destroy m))

-- uhal_driver_init from device_create on.
unfoldable pub init_device : (device : Answer ℕ) (major : ℤ) → Registry → ℤ × Registry
unfolding init_chrdev
init_device (failed e) major m = (e, class_destroy m)
init_device (made d) major m = init_chrdev major (record m { devices = m.devices + 1 })

-- uhal_driver_init
unfoldable pub driver_init : (class device : Answer ℕ) (major : ℤ) → Registry → ℤ × Registry
unfolding init_device
driver_init (failed e) device major m = (e, m)
driver_init (made c) device major m =
    init_device device major (record m { classes = m.classes + 1 })

-- unregister_chrdev(major, "uhal")
abbrev pub unregister_chrdev : ℕ → Registry → Registry
unregister_chrdev major m = record m { majors = erase major m.majors }

-- uhal_driver_exit
unfoldable pub driver_exit : Registry → Registry
driver_exit m = class_destroy (device_destroy (unregister_chrdev 0 m))

-- uhal_open and uhal_release
unfoldable pub uhal_open : Registry → ℤ × Registry
uhal_open m = (success, m)

unfoldable pub uhal_release : Registry → ℤ × Registry
uhal_release m = (success, m)

pub data UhalCmd : Type 0 where
  init detect_hw setup_quantum : UhalCmd
  unknown : ℕ → UhalCmd

-- uhal_ioctl
module _ {S : Type 0} (uhal_init : S → ℤ × S)
    (uhal_detect_hardware uhal_setup_quantum : S → S) where
  unfoldable pub ioctl : UhalCmd → S → ℤ × S
  ioctl init s = uhal_init s
  ioctl detect_hw s = (success, uhal_detect_hardware s)
  ioctl setup_quantum s = (success, uhal_setup_quantum s)
  ioctl (unknown n) s = (einval, s)

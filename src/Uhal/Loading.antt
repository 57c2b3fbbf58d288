-- ===== src/Uhal/Loading.antt =====
-- Loading and unloading the driver of the hardware abstraction layer.
use ctrlxt_kernel.Base.{
  ℕ, ◌+◌, ◌<◌, ◌≡◌, refl, ◌⊎◌, inl, inr, true, false, ◌∷◌, ℤ, pos, negsuc, is_neg, has,
  erase_of_not, arith,
}
use ctrlxt_kernel.Kernel.Errno.{success}
use ctrlxt_kernel.Kernel.Pointer.{NegErr, Answer, made, failed}
use ctrlxt_kernel.Uhal.{Registry, init_chrdev, init_device, driver_init, driver_exit}

-- The registry after a call that failed, or one that succeeded with a new major.
abbrev pub InitOutcome : ℤ → Registry → ℤ → Registry → Type 0
InitOutcome major m r n =
    ((is_neg r ≡ true) × (n ≡ m))
    ⊎ ((r ≡ success)
        × (a : ℕ) × (major ≡ pos a)
        × (n ≡ record { classes = m.classes + 1; devices = m.devices + 1; majors = a ∷ m.majors }))

-- Where the kernel's error codes are negative, uhal_driver_init undoes all it has done when it
-- fails, at whichever of its three steps, and returns the negative code; otherwise it returns 0
-- and leaves a class, a device and a major more.
pub driver_init-undoes :
    (class device : Answer ℕ) (major : ℤ) (m : Registry)
    → NegErr class
    → NegErr device
    → InitOutcome major m (driver_init class device major m).0 (driver_init class device major m).1
unfolding driver_init init_device init_chrdev
driver_init-undoes (failed e) device major m nc nd = inl (nc, refl)
driver_init-undoes (made c) (failed e) major m nc nd = inl (nd, ground arith)
driver_init-undoes (made c) (made d) (pos a) m nc nd = inr (refl, a, refl, refl)
driver_init-undoes (made c) (made d) (negsuc a) m nc nd = inl (refl, ground arith)

-- The driver asks for any free major and unregisters major 0. Where the kernel's error codes are
-- negative and nothing is registered at major 0, unloading after an initialisation that returned 0
-- and was given another major removes the class and the device, and leaves the character device
-- registered.
pub driver_init-driver_exit :
    (class device : Answer ℕ) (major : ℕ) (m n : Registry)
    → NegErr class
    → NegErr device
    → 0 < major
    → has 0 m.majors ≡ false
    → driver_init class device (pos major) m ≡ (success, n)
    → driver_exit n ≡ record m { majors = major ∷ m.majors }
unfolding driver_exit
driver_init-driver_exit class device major m n nc nd lo free h =
    elim (driver_init-undoes class device (pos major) m nc nd) [
      | inl (e, _) ↦ absurd (ground (arith, e, h))
      | inr (_, a, p, q) ↦
          let same : major ≡ a = cc in
          let state : n ≡ record {
            classes = m.classes + 1;
            devices = m.devices + 1;
            majors = major ∷ m.majors;
          } =
            cc in
          rw state (ground (arith, free, lo, erase_of_not 0 m.majors free))
    ]

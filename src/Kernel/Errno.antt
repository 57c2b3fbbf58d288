-- ===== src/Kernel/Errno.antt =====
-- The error numbers of asm-generic/errno-base.h that the sources return, with their sign.
use ctrlxt_kernel.Base.{ℤ, pos, negsuc}

abbrev pub success : ℤ
success = pos 0

abbrev pub eperm : ℤ
eperm = negsuc 0

abbrev pub enomem : ℤ
enomem = negsuc 11

abbrev pub efault : ℤ
efault = negsuc 13

abbrev pub ebusy : ℤ
ebusy = negsuc 15

abbrev pub enodev : ℤ
enodev = negsuc 18

abbrev pub einval : ℤ
einval = negsuc 21

abbrev pub enotty : ℤ
enotty = negsuc 24

abbrev pub enotsup : ℤ
enotsup = negsuc 94

abbrev pub eaddrnotavail : ℤ
eaddrnotavail = negsuc 98

-- ===== src/Kernel.antt =====
-- What the modules take from the C language and from the Linux kernel's own interfaces.
pub mod Errno
pub mod Pointer
pub mod Atomic
pub mod Run
pub mod Slot
pub mod History

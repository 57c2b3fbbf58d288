-- ===== src/Device.antt =====
-- The character device of the quantum driver, kernel/drivers/quantum/quantum_device.c.
pub mod Ioctl
pub mod Open
pub mod Setup

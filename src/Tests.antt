-- ===== src/Tests.antt =====
-- Runs of the models at concrete inputs.
pub mod Memory
pub mod Drivers
pub mod Quantum
pub mod Monitors
pub mod Regions
pub mod Files
pub mod Network
pub mod Core
pub mod Threads
pub mod Benchmarks

-- ===== src/QMem.antt =====
-- The quantum memory manager, kernel/quantum/quantum_memory.c.
-- `struct ctrlxt_qmem` is the record `QMem`; blocks are objects on a heap, and the lists of blocks
-- are lists of their addresses, newest first. What kzalloc and quantum_state_alloc return is an
-- argument (`none` is NULL), and the calls of quantum_state_free are logged in `freed_states`.
-- The spinlock is a flag, and taking it twice is a fault.
pub mod Defs
pub mod Count
pub mod Sound
pub mod Alloc
pub mod Free
pub mod Keep
pub mod History
pub mod Pool
pub mod RoundTrip
pub mod Limits
pub mod Race
pub mod Exit
pub mod States

-- ===== src/Contexts.antt =====
-- Reference-counted contexts behind one global pointer. kernel/security/security.c and
-- kernel/performance/performance.c have the same functions for this, over contexts with different
-- fields; both are instances of the operations here.
pub mod Defs
pub mod References
pub mod Bodies
pub mod Holding

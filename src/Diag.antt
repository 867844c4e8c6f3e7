-- ===== src/Diag.antt =====
-- internal/diag: the diagnostics of locks.
pub mod LockOrder
mod Tests

-- ===== src/Rpc.antt =====
-- internal/rpc: the gate before the handlers.
pub mod Gate

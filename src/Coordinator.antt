-- ===== src/Coordinator.antt =====
-- internal/coordinator: what the coordinator attaches to the scheduler, and how it keeps its state.
pub mod Effects
pub mod RaftCommit
pub mod Tickets
pub mod Durable
pub mod Failures
mod Tests

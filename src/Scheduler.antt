-- ===== src/Scheduler.antt =====
-- internal/scheduler: jobs split into shard tasks, leased to workers and stolen between them.
pub mod Job
pub mod Lease
pub mod State
pub mod Steal
pub mod Dispatch
pub mod Drain
pub mod Settle
pub mod Report
pub mod Invariant
pub mod Steps
mod Tests

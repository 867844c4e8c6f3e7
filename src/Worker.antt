-- ===== src/Worker.antt =====
-- internal/worker: the worker that runs one assigned task.
pub mod Sweep
mod Tests

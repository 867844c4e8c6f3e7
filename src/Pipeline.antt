-- ===== src/Pipeline.antt =====
-- internal/pipeline: the write-ahead log and the prefetcher.
pub mod Wal
pub mod Prefetcher

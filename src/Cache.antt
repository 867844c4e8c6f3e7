-- ===== src/Cache.antt =====
-- internal/cache: the byte-bounded object cache and its eviction policies.
pub mod Ids
pub mod Policy
pub mod Eviction
pub mod S3Fifo
pub mod Lru
pub mod Clock
mod Tests

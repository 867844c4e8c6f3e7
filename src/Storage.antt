-- ===== src/Storage.antt =====
-- internal/storage: the shards of a dataset, and the upload in parts.
pub mod Shard
pub mod Multipart

-- ===== src/Memory.antt =====
-- The in-memory cache of the crate foyer-memory: handles, the indexer, the eviction algorithms and
-- the cache shard that joins them.
pub mod Handle
pub mod Queue
pub mod Eviction
pub mod Indexer
pub mod Shard
pub mod Cache
mod Tests

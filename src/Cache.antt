-- ===== src/Cache.antt =====
-- shareds/cache: the storage of the cache's entries.
pub mod FlatStorage
pub mod Lru
pub mod Singleflight
pub mod FlatCache

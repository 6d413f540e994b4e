-- ===== src/Cache.antt =====
-- internal/cache: the context cache over a graph repository.
pub mod Types
pub mod Entries
pub mod Manager
pub mod Invalidation
pub mod Semantic
pub mod Jobs
pub mod Lookups
pub mod Stores
pub mod Kept
pub mod Removal
pub mod Counting
pub mod Groups
pub mod Eviction
pub mod Quota
pub mod Purge
pub mod Tests

-- ===== src/Ctxstore.antt =====
-- internal/ctxstore: the records of developer context, and the digests of them.
pub mod Records
pub mod Digest
pub mod Budget
pub mod Packed
pub mod Shown
pub mod Tests
pub mod Store

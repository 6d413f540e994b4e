-- ===== src/Runtime.antt =====
-- internal/runtime: the queue of observation events.
pub mod Queue

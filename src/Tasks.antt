-- ===== src/Tasks.antt =====
-- The task queue of a drive, crates/cloudreve-sync/src/tasks.
pub mod Types
pub mod Queue

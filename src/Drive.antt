-- ===== src/Drive.antt =====
-- crates/cloudreve-sync/src/drive: a drive's event sources and the planning of its synchronisation.
pub mod Backoff
pub mod EventBlocker
pub mod Files
pub mod Fingerprint
pub mod Changes
pub mod SyncPlan
pub mod SyncRun
pub mod RemoteEvents
pub mod Shortcuts
pub mod FsEvents

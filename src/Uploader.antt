-- ===== src/Uploader.antt =====
-- crates/cloudreve-sync/src/uploader: chunked uploads.
pub mod Encrypt
pub mod Session
pub mod Pool
pub mod Tracker
pub mod Reader
pub mod Retry
pub mod Upload

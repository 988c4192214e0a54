-- ===== src/Inventory.antt =====
-- The inventory, crates/cloudreve-sync/src/inventory: its tables of tasks and of file metadata.
pub mod Models
pub mod Tasks
pub mod FileMetadata
pub mod Paths

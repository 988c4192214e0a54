-- ===== src/Tests.antt =====
-- The theorems at concrete inputs.
mod Uploads
mod Pools
mod Retries
mod Drives
mod Queues
mod Inventory
mod Orchestration
mod Boolsets
mod SyncRuns
mod Events

-- ===== src/Drive/SyncRun.antt =====
-- drive/sync.rs: the execution of a synchronisation. Everything outside (the file system, the server,
-- the inventory, the task queue) answers by the parameter Environment, which may answer differently
-- each time: it is given the log of all calls so far. A function that pushes onto `aggregate_error` or
-- makes a call returns the new errors and the new log.
pub mod Calls
pub mod Actions
pub mod Gather
pub mod Group
pub mod Lower
pub mod LowerGroups
pub mod Ends
pub mod Errors
pub mod Counted
pub mod Honest
pub mod Seen
pub mod Known
pub mod Reads
pub mod Care
pub mod Careful

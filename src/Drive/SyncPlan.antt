-- ===== src/Drive/SyncPlan.antt =====
-- drive/sync.rs: from the local, remote and inventory state of the paths of a directory to the
-- actions of a synchronisation and the directories to walk next. A path is a string; a function that
-- pushes onto `plan` returns the plan. The Windows build's `LocalFileInfo` is used throughout.
pub mod Model
pub mod FilePlan
pub mod Entry
pub mod Build
pub mod Content
pub mod Walks
pub mod Requests
pub mod Due
pub mod Asked
pub mod Walked
pub mod Safety

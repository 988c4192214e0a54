-- ===== src/Lib.antt =====
-- Models of the Rust core of cloudreve-desktop, a client that keeps local directories in step with a
-- Cloudreve server (crates/cloudreve-sync).
--
-- The parts. A drive (crates/cloudreve-sync/src/drive) compares, for the paths of a directory, the
-- local file, the server's entry and the inventory's row, plans actions and further walks and
-- carries them out. The inventory (crates/cloudreve-sync/src/inventory) is a SQLite database of
-- what was synchronised, of tasks and of upload sessions. A task goes through the queue
-- (crates/cloudreve-sync/src/tasks), which stores it, runs a few at a time and cancels by path. A
-- file to upload goes to the uploader (crates/cloudreve-sync/src/uploader): a session cuts it into
-- chunks, a pool of workers takes the chunks, each worker reads its chunk, encrypts it if the
-- storage policy asks for it, sends it with retries, and counts its bytes in a tracker. The drive's
-- own writes come back as file system events, which the event blocker drops; the server's events
-- come over a connection that is set up again with growing delays.
--
-- Drive/SyncPlan: drive/sync.rs. Model has SyncAction, WalkRequest and SyncPlan (a function that
-- pushes onto the plan returns the plan), FilePlan plan_file_actions, Entry plan_entry_actions and
-- what it dispatches to, Build build_sync_plan; Due says of a path whether it is walked.
-- Drive/Changes: local_has_changes and remote_change. Drive/Fingerprint: the hashes of a metadata
-- map. Drive/Files: FileMetadata (inventory/models.rs), FileResponse
-- (crates/cloudreve-api/src/models/explorer.rs) and LocalFileInfo (cfapi/placeholder.rs), the
-- Windows build. The standard library's text operations, chrono, the hash of a local file, the
-- ignore matcher and the name of a conflict copy are the record Host.
-- Drive/SyncRun: sync_paths and what it calls in drive/sync.rs. Calls has the errors and the record
-- Environment: the answers of the file system, the placeholders, the inventory, the server and the
-- queue to each call, given the log of the calls before; Gather the reading of local, remote and
-- inventory entries and of the children of a directory, Actions process_action, Group the groups, their
-- walks and the recursion between them.
-- Drive/EventBlocker: drive/event_blocker.rs; each method runs under the mutex and is a function of
-- the map. Drive/FsEvents: group_fs_events of drive/sync.rs. Drive/Backoff: BackoffState and the
-- loop of drive/remote_events.rs, over a list of results. Drive/RemoteEvents: the handling of
-- batches of file events in the same file, build for Windows and Linux, with Listen for one
-- connection; a path is the list of its components, and Surroundings has how a remote path is
-- joined to a local one and the answers of the file system.
-- Drive/Shortcuts: resolve_with_lookup of drive/share_shortcuts.rs, over the URIs of the url crate as
-- the record Uris; Rebase rebase_content_uri.
--
-- Inventory/Models: the task records of inventory/models.rs. Inventory/Tasks: inventory/db/tasks.rs, a
-- table as the list of its rows, an update as a map over it; Queries has what takes many rows.
-- Inventory/FileMetadata: inventory/db/file_metadata.rs, with Deletion for whole subtrees, and
-- Inventory/Paths for its LIKE patterns. Of SQLite's LIKE, LikeEscape states the documented behaviour;
-- of serde_json and uuid, the records Reads state that they read back what they wrote.
-- Tasks/Types: tasks/types.rs. Tasks/Queue: tasks/queue.rs; State has the queue with its dispatcher and
-- spawned tasks, Operations what each call or phase does to it, Step the interleavings: a spawned task
-- takes one step for each access to shared state, enqueue, shutdown and the two halves of
-- cancel_by_path one each. The result of a task is arbitrary.
--
-- Uploader/Session: uploader/session.rs. Uploader/Encrypt: uploader/encrypt.rs; the keystream of the
-- ctr and aes crates is a parameter, of which IsCtr states the documented form.
-- Uploader/Reader: ChunkReader of uploader/chunk.rs, over the results of the reads below it.
-- Uploader/Retry: upload_chunk_with_retry and ProgressStream. Uploader/Pool: UploadPoolState,
-- spawn_chunk_worker and upload_chunks_with_pool of uploader/chunk.rs as a step relation: a step is one
-- atomic operation of one worker or of the spawning loop, or a cancellation, in any order; a failing
-- try_lock is a step of its own. Uploader/Tracker: uploader/progress.rs and the counters that
-- upload_all starts with. Uploader/Upload: Uploader::upload of uploader/mod.rs and the completion of
-- uploader/providers/mod.rs, over the rows of upload_sessions and a log of the calls; the answers of
-- the server, of the providers and of the database are the record Environment.
--
-- Boolset: crates/cloudreve-api/src/boolset/mod.rs, the bit sets of permissions, over lists of bytes.
--
-- Integers: a u64 or usize keeps its wrap-around as a remainder modulo 2 ^ 64, an i64 is an integer that
-- is wrapped where the code can overflow. Loops: the attempts of the retry loop recurse on the number of
-- rounds left, one more than max_retries, which is what the range of the loop gives; the rounds of
-- resolve_with_lookup on MAX_REDIRECTS; the rounds over a counter's bytes on the index; all other loops
-- on a list. Only the recursion of sync_group into directories has fuel: more than the height of the
-- tree that the walks see is enough, and `none` is the fuel's end.
--
-- Not modelled: the HTTP clients and storage providers, SQLite itself, the renaming of paths and the
-- drive properties in the inventory, the tasks that the queue runs, the mapping between local paths and
-- URIs, the bindings of Windows and macOS, the desktop application, logging, and the floating-point
-- numbers of progress updates (the speed's division is a parameter).
--
-- Prelude: shared names, Boolean tests, lists, machine integers. Dict: hash maps as association lists.
-- Tests: the theorems at concrete inputs, and runs of definitions.
mod Prelude
mod Dict
pub mod Boolset
pub mod Drive
pub mod Inventory
pub mod Tasks
pub mod Uploader
mod Tests

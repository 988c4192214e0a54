-- ===== src/Drive/SyncPlan/Build.antt =====
-- `build_sync_plan` of drive/sync.rs, with the decision on a file that the inventory does not know.
use cloudreve_desktop.Prelude.{
  ◌==◌, if◌then◌else◌, as_u64, String, Bool, true, false, not, ◌||◌, Option, none, some, List, [],
  ◌∷◌,
}
use cloudreve_desktop.Prelude.Int.{ℤ, pos, ◌+ℤ◌, ltb_ℤ, wrap_i64, saturating_mul}
use cloudreve_desktop.Dict.{lookup, string_eq}
use cloudreve_desktop.Drive.Files.{
  FileMetadata, FileResponse, LocalFileInfo, missing, is_placeholder, is_folder, is_some,
  system_time_to_unix_millis,
}
use cloudreve_desktop.Drive.Fingerprint.{Host, FileHashFingerprint, remote_file_hash_fingerprint}
use cloudreve_desktop.Drive.Changes.{unwrap_or}
use cloudreve_desktop.Drive.SyncPlan.Model.{
  SyncMode, SyncAction, SyncPlan, ExistingRemoteLocalFileDecision, push,
}
use cloudreve_desktop.Drive.SyncPlan.FilePlan.{hash_matches}
use cloudreve_desktop.Drive.SyncPlan.Entry.{plan_entry_actions}

-- `local_ms > remote_updated_at.saturating_mul(1000) + 2000`
local_is_newer : Host → FileResponse → Option ℤ → Bool
local_is_newer host remote none = false
local_is_newer host remote (some time) = elim (system_time_to_unix_millis time) [
  | none ↦ false
  | some local_ms ↦
      let remote_updated_at = unwrap_or (host.parse_rfc3339_timestamp remote.updated_at) (pos 0) in
      ltb_ℤ (wrap_i64 (saturating_mul remote_updated_at 1000 +ℤ pos 2000)) local_ms
]

decide_content :
    Host
    → String
    → FileResponse
    → LocalFileInfo
    → Option FileHashFingerprint
    → ExistingRemoteLocalFileDecision
unfolding local_is_newer hash_matches
decide_content host path remote local none =
    if unwrap_or local.file_size 0 == as_u64 remote.size
    then if local_is_newer host remote local.last_modified
      then ExistingRemoteLocalFileDecision.conflict
      else ExistingRemoteLocalFileDecision.same_content
    else ExistingRemoteLocalFileDecision.conflict
decide_content host path remote local (some remote_fingerprint) =
    if hash_matches host path remote_fingerprint
    then ExistingRemoteLocalFileDecision.same_content
    else ExistingRemoteLocalFileDecision.conflict

unfoldable pub decide_existing_local_remote_file :
    Host
    → String
    → FileResponse
    → LocalFileInfo
    → Option FileMetadata
    → Option ExistingRemoteLocalFileDecision
unfolding decide_content
decide_existing_local_remote_file host path remote local inventory =
    if is_some inventory
      || (not local.exists || (local.is_directory || (is_placeholder local || is_folder remote)))
    then none
    else some (decide_content host path remote local (remote_file_hash_fingerprint host remote))

-- The maps of a directory's entries by path.
pub record Entries : Type 0 where
  pub remote_files : List (String × FileResponse)
  pub local_files : List (String × LocalFileInfo)
  pub inventory_entries : List (String × FileMetadata)

-- The decision on a path, made where it has a remote and a local entry.
unfoldable pub decide :
    Host
    → String
    → Option FileResponse
    → Option LocalFileInfo
    → Option FileMetadata
    → Option (ExistingRemoteLocalFileDecision × FileResponse)
unfolding decide_existing_local_remote_file
decide host path (some remote) (some local) inventory =
    elim (decide_existing_local_remote_file host path remote local inventory) [
      | none ↦ none
      | some decision ↦ some (decision, remote)
    ]
decide host path (some remote) none inventory = none
decide host path none local inventory = none

unfoldable pub marks_conflict : ExistingRemoteLocalFileDecision → Bool
marks_conflict ExistingRemoteLocalFileDecision.same_content = false
marks_conflict ExistingRemoteLocalFileDecision.conflict = true

unfoldable pub record_decision :
    String
    → Option (ExistingRemoteLocalFileDecision × FileResponse)
    → SyncPlan
    → SyncPlan
    → SyncPlan
unfolding marks_conflict
record_decision path none plan planned = planned
record_decision path (some (decision, remote)) plan planned =
    push (SyncAction.record_inventory_from_remote path remote (marks_conflict decision)) plan

-- The body of the loop.
unfoldable pub plan_path : Host → SyncMode → Entries → String → SyncPlan → SyncPlan
unfolding decide record_decision plan_entry_actions
plan_path host mode entries path plan =
    let local = lookup path entries.local_files in
    let remote = lookup path entries.remote_files in
    let inventory = lookup path entries.inventory_entries in
    if host.is_ignored path
    then plan
    else record_decision path (decide host path remote local inventory) plan
        (plan_entry_actions host path mode remote (unwrap_or local missing) inventory plan)

unfoldable pub plan_paths : Host → SyncMode → Entries → List String → SyncPlan → SyncPlan
unfolding plan_path
plan_paths host mode entries [] plan = plan
plan_paths host mode entries (path ∷ paths) plan =
    plan_paths host mode entries paths (plan_path host mode entries path plan)

unfoldable pub build_sync_plan : Host → SyncMode → List String → Entries → SyncPlan
unfolding plan_paths
build_sync_plan host mode paths entries =
    plan_paths host mode entries paths (record { actions = []; walk_requests = [] })

-- ===== src/Drive/SyncPlan/Entry.antt =====
-- `plan_entry_actions` of drive/sync.rs and the functions it dispatches to.
use cloudreve_desktop.Prelude.{
  if◌then◌else◌, String, Bool, true, false, not, ◌&&◌, ◌||◌, Option, none, some,
}
use cloudreve_desktop.Drive.Files.{
  FileMetadata, FileResponse, LocalFileInfo, is_placeholder, partial_on_disk, is_folder_populated,
  is_folder, is_received_item,
}
use cloudreve_desktop.Drive.Fingerprint.{Host}
use cloudreve_desktop.Drive.Changes.{local_has_changes, remote_change, bool_eq}
use cloudreve_desktop.Drive.SyncPlan.Model.{
  SyncMode, UploadReason, SyncAction, SyncPlan, push, maybe_enqueue_walk_for_directory,
}
use cloudreve_desktop.Drive.SyncPlan.FilePlan.{is_unchanged, plan_file_actions}

unfoldable pub should_preserve_unavailable_received_item : LocalFileInfo → FileMetadata → Bool
should_preserve_unavailable_received_item local inventory =
    if local.is_directory
    then not (is_placeholder local) || is_folder_populated local
    else local_has_changes local (some inventory)

-- Local and remote are of different kinds.
unfoldable pub plan_mismatch : Host → String → FileResponse → LocalFileInfo → SyncPlan → SyncPlan
plan_mismatch host path remote local plan =
    let plan' =
      if is_placeholder local && partial_on_disk local
      then push (SyncAction.delete_local_and_inventory path false) plan
      else push (SyncAction.rename_local_with_conflict path (host.generate_conflict_path path))
          plan in
    push (SyncAction.create_placeholder_and_inventory path remote) plan'

unfoldable pub plan_entry_with_remote_and_local :
    Host
    → String
    → SyncMode
    → FileResponse
    → LocalFileInfo
    → Option FileMetadata
    → SyncPlan
    → SyncPlan
unfolding plan_mismatch
plan_entry_with_remote_and_local host path mode remote local inventory plan =
    let updated =
      if is_unchanged (remote_change host remote inventory)
      then plan
      else push (SyncAction.update_inventory_from_remote path remote false) plan in
    if not (bool_eq local.is_directory (is_folder remote))
    then plan_mismatch host path remote local plan
    else if is_folder remote
    then maybe_enqueue_walk_for_directory path mode local false false updated
    else plan_file_actions host path remote local inventory plan

-- A local entry that is not an item received from another user.
unfoldable pub plan_own_local :
    String → SyncMode → LocalFileInfo → Option FileMetadata → SyncPlan → SyncPlan
plan_own_local path mode local inventory plan =
    let hydrated = is_folder_populated local in
    if local.is_directory
    then if not hydrated
      then push (SyncAction.delete_local_and_inventory path false) plan
      else push (SyncAction.create_remote_folder_if_exist path) (
          push (SyncAction.delete_local_and_inventory path true)
            (maybe_enqueue_walk_for_directory path mode local true hydrated plan))
    else if not (local_has_changes local inventory)
    then push (SyncAction.delete_local_and_inventory path false) plan
    else push (SyncAction.queue_upload path UploadReason.remote_missing) plan

unfoldable pub plan_received : String → LocalFileInfo → FileMetadata → SyncPlan → SyncPlan
unfolding should_preserve_unavailable_received_item
plan_received path local inventory plan =
    if should_preserve_unavailable_received_item local inventory
    then push (SyncAction.preserve_unavailable_received_item path) plan
    else push (SyncAction.delete_local_and_inventory path false) plan

unfoldable pub plan_entry_with_local_only :
    String → SyncMode → LocalFileInfo → Option FileMetadata → SyncPlan → SyncPlan
unfolding plan_own_local plan_received is_received_item
plan_entry_with_local_only path mode local none plan =
    if local.exists then plan_own_local path mode local none plan else plan
plan_entry_with_local_only path mode local (some inventory) plan =
    if local.exists
    then if is_received_item inventory
      then plan_received path local inventory plan
      else plan_own_local path mode local (some inventory) plan
    else plan

unfoldable pub plan_entry_actions :
    Host
    → String
    → SyncMode
    → Option FileResponse
    → LocalFileInfo
    → Option FileMetadata
    → SyncPlan
    → SyncPlan
unfolding plan_entry_with_remote_and_local plan_entry_with_local_only
plan_entry_actions host path mode (some remote) local inventory plan =
    if local.exists
    then plan_entry_with_remote_and_local host path mode remote local inventory plan
    else push (SyncAction.create_placeholder_and_inventory path remote) plan
plan_entry_actions host path mode none local inventory plan =
    if local.exists then plan_entry_with_local_only path mode local inventory plan else plan

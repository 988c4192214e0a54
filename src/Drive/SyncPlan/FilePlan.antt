-- ===== src/Drive/SyncPlan/FilePlan.antt =====
-- `plan_file_actions` of drive/sync.rs: the three-way comparison of a file.
use cloudreve_desktop.Prelude.{
  if◌then◌else◌, String, Bool, true, false, not, ◌&&◌, Option, none, some,
}
use cloudreve_desktop.Drive.Files.{
  ConflictState, FileMetadata, FileResponse, LocalFileInfo, PinState, partial_on_disk,
}
use cloudreve_desktop.Drive.Fingerprint.{
  Host, FileHashFingerprint, metadata_hash_fingerprint, remote_file_hash_fingerprint,
}
use cloudreve_desktop.Drive.Changes.{
  RemoteChange, local_has_changes, remote_change, fingerprints_equal,
}
use cloudreve_desktop.Drive.SyncPlan.Model.{UploadReason, SyncAction, SyncPlan, push}

-- `Ok(local_hash) if local_hash.eq_ignore_ascii_case(&remote_fingerprint.value)`
unfoldable pub hash_matches : Host → String → FileHashFingerprint → Bool
hash_matches host path fingerprint = elim (host.calculate_file_hash path fingerprint.algorithm) [
  | none ↦ false
  | some local_hash ↦ host.eq_ignore_ascii_case local_hash fingerprint.value
]

is_pending : Option ConflictState → Bool
is_pending (some ConflictState.pending) = true
is_pending (some ConflictState.override) = false
is_pending none = false

unfoldable pub is_conflicting : Option FileMetadata → Bool
unfolding is_pending
is_conflicting none = false
is_conflicting (some inv) = is_pending inv.conflict_state

unfoldable pub base_fingerprint : Host → Option FileMetadata → Option FileHashFingerprint
base_fingerprint host none = none
base_fingerprint host (some entry) = metadata_hash_fingerprint host entry.metadata

unfoldable pub is_pinned : PinState → Bool
is_pinned PinState.pinned = true
is_pinned _ = false

-- The arm "local unchanged".
unfoldable pub plan_local_unchanged :
    String → FileResponse → LocalFileInfo → RemoteChange → (identical : Bool) → SyncPlan → SyncPlan
unfolding is_pinned
plan_local_unchanged path remote local RemoteChange.unchanged identical plan = plan
plan_local_unchanged path remote local RemoteChange.older identical plan =
    if identical
    then push (SyncAction.update_inventory_from_remote path remote false) plan
    else push (SyncAction.record_inventory_from_remote path remote true) plan
plan_local_unchanged path remote local RemoteChange.newer identical plan =
    if identical
    then push (SyncAction.update_inventory_from_remote path remote false) plan
    else if is_pinned local.pin_state
    then push (SyncAction.queue_download path remote) plan
    else push (SyncAction.update_inventory_from_remote path remote (not (partial_on_disk local)))
        plan

-- The arm "both changed": identical content is adopted where its hash is known.
unfoldable pub plan_both_changed :
    Host → String → FileResponse → LocalFileInfo → Option FileHashFingerprint → SyncPlan → SyncPlan
unfolding hash_matches
plan_both_changed host path remote local none plan =
    push (SyncAction.queue_upload path UploadReason.remote_mismatch) plan
plan_both_changed host path remote local (some remote_fingerprint) plan =
    if not (partial_on_disk local) && hash_matches host path remote_fingerprint
    then push (SyncAction.update_inventory_from_remote path remote false) plan
    else push (SyncAction.queue_upload path UploadReason.remote_mismatch) plan

abbrev pub is_unchanged : RemoteChange → Bool
is_unchanged RemoteChange.unchanged = true
is_unchanged RemoteChange.newer = false
is_unchanged RemoteChange.older = false

unfoldable pub plan_file_actions :
    Host → String → FileResponse → LocalFileInfo → Option FileMetadata → SyncPlan → SyncPlan
unfolding plan_local_unchanged plan_both_changed is_conflicting
plan_file_actions host path remote local inventory plan =
    let conflicting = is_conflicting inventory in
    let remote_state = remote_change host remote inventory in
    let remote_fingerprint = remote_file_hash_fingerprint host remote in
    let identical = fingerprints_equal (base_fingerprint host inventory) remote_fingerprint in
    if not (local_has_changes local inventory)
    then plan_local_unchanged path remote local remote_state identical plan
    else if is_unchanged remote_state
    then if conflicting
      then plan
      else push (SyncAction.queue_upload path UploadReason.remote_mismatch) plan
    else if conflicting
    then plan
    else plan_both_changed host path remote local remote_fingerprint plan

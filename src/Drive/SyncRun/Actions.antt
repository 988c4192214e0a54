-- ===== src/Drive/SyncRun/Actions.antt =====
-- `process_action` and `process_sync_plan_actions_list` of drive/sync.rs, the Windows build.
use cloudreve_desktop.Prelude.{
  if◌then◌else◌, ltb, ℕ, String, Bool, false, ◌&&◌, Option, none, some, List, [], ◌∷◌,
}
use cloudreve_desktop.Drive.SyncPlan.Model.{SyncAction}
use cloudreve_desktop.Drive.SyncRun.Calls.{
  Fault, Call, Environment, Progress, after, on_outcome, push_error, reported, ignored,
}

-- `read_dir` succeeds and `entries.count() > 0`
unfoldable pub not_empty : Option ℕ → Bool
not_empty none = false
not_empty (some n) = ltb 0 n

unfoldable pub delete_local : Environment → String → Progress → Progress
delete_local env path p =
    let prepared = Call.prepare_local_placeholder_deletion path in
    on_outcome (env.attempt p.log prepared)
      (reported env path (Call.delete_placeholder path)
        (record p { log = after env prepared p.log }))
      (λ fault. push_error path (some fault) (record p { log = after env prepared p.log }))

unfoldable pub process_action : Environment → SyncAction → Progress → Progress
unfolding not_empty delete_local
process_action env (SyncAction.create_placeholder_and_inventory path remote) p =
    reported env path (Call.commit path remote false) p
process_action env (SyncAction.record_inventory_from_remote path remote mark_conflicted) p =
    if mark_conflicted
    then reported env path (Call.upsert_conflicted path remote) p
    else reported env path (Call.commit path remote false) p
process_action env (SyncAction.update_inventory_from_remote path remote invalidate_all) p =
    reported env path (Call.commit path remote invalidate_all) p
process_action env (SyncAction.queue_upload path reason) p =
    reported env path (Call.enqueue_upload path) p
process_action env (SyncAction.queue_download path remote) p =
    reported env path (Call.enqueue_download path) (ignored env (Call.cancel_by_path path) p)
process_action env (SyncAction.delete_local_and_inventory path skip_if_not_empty) p =
    if skip_if_not_empty && not_empty (env.count p.log path) then p else delete_local env path p
process_action env (SyncAction.create_remote_folder_if_exist path) p =
    if env.exists p.log path then reported env path (Call.enqueue_upload path) p else p
process_action env (SyncAction.rename_local_with_conflict original renamed) p =
    reported env original (Call.rename original renamed)
      (ignored env (Call.cancel_by_path original) p)
process_action env (SyncAction.preserve_unavailable_received_item path) p =
    push_error path (some (Fault.other "Received item is no longer available remotely"))
      (ignored env (Call.update_sync_error_state path) p)

unfoldable pub process_actions : Environment → List SyncAction → Progress → Progress
unfolding process_action
process_actions env [] p = p
process_actions env (action ∷ actions) p = process_actions env actions (process_action env action p)

-- An identifier of the drive that does not parse is the only error that is returned, and then pushed
-- by the caller under the directory.
unfoldable pub process_sync_plan_actions_list :
    Environment → String → List SyncAction → Progress → Progress
unfolding process_actions
process_sync_plan_actions_list env parent actions p =
    let parsed = record p { log = after env Call.parse_drive_id p.log } in
    on_outcome (env.attempt p.log Call.parse_drive_id) (process_actions env actions parsed)
      (λ fault. push_error parent (some fault) parsed)

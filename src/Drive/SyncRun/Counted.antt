-- ===== src/Drive/SyncRun/Counted.antt =====
-- Each action of a plan collects an error exactly if one of its calls was not tolerated.
use cloudreve_desktop.Prelude.{
  all, ◌≡◌, true, false, Option, none, some, arith, if-rule, String, refl, ◌&&◌, List, [], ◌∷◌,
}
use cloudreve_desktop.Drive.SyncPlan.Model.{SyncAction}
use cloudreve_desktop.Drive.SyncRun.Calls.{
  Fault, Faults, Log, Call, Environment, Progress, after, on_outcome-rule, push_error, push_fault,
  is_empty, reported, ignored,
}
use cloudreve_desktop.Drive.SyncRun.Actions.{
  delete_local, process_action, process_actions, process_sync_plan_actions_list, not_empty,
}
use cloudreve_desktop.Drive.SyncRun.Errors.{
  fine-strict, fine, succeeded, clean-after, strict, clean,
}

-- Since a log, an error was collected exactly if a call was not tolerated.
abbrev pub Counted : Log → Progress → Type 0
Counted base p = clean p.log ≡ (clean base && is_empty p.errors)

push_fault-is_empty :
    (path : String) (fault : Fault) (errors : Faults)
    → is_empty (push_fault path fault errors) ≡ false
unfolding push_fault
push_fault-is_empty path fault Faults.empty = refl
push_fault-is_empty path fault (Faults.entry p f rest) = refl

-- An outcome is pushed with the log that it came with.
pub push_error-Counted :
    (base log : Log) (path : String) (outcome : Option Fault) (p : Progress)
    → clean log ≡ (clean p.log && succeeded outcome)
    → Counted base p
    → Counted base (push_error path outcome (record p { log = log }))
unfolding push_error
push_error-Counted base log path none p e h = ground arith
push_error-Counted base log path (some fault) p e h = rw push_fault-is_empty (ground arith)

module _ (env : Environment) (base : Log) where
  reported-Counted :
      (path : String) (call : Call) (p : Progress)
      → strict call ≡ true
      → Counted base p
      → Counted base (reported env path call p)
  unfolding reported
  reported-Counted path call p s h =
      push_error-Counted base (after env call p.log) path (env.attempt p.log call) p
        (rw clean-after (ground (arith, fine-strict call (env.attempt p.log call) s))) h

  ignored-Counted :
      (call : Call) (p : Progress)
      → fine (call, env.attempt p.log call) ≡ true
      → Counted base p
      → Counted base (ignored env call p)
  unfolding ignored
  ignored-Counted call p s h = rw clean-after (ground arith)

  delete_local-Counted :
      (path : String) (p : Progress) → Counted base p → Counted base (delete_local env path p)
  unfolding delete_local
  delete_local-Counted path p h =
      let prepared = Call.prepare_local_placeholder_deletion path in
      on_outcome-rule (Counted base) (env.attempt p.log prepared)
        (λ ok.
          reported-Counted path (Call.delete_placeholder path)
            (record p { log = after env prepared p.log }) refl (rw (clean-after, ok) h))
        (λ fault failed.
          push_error-Counted base (after env prepared p.log) path (some fault) p
            (rw (clean-after, failed) (ground arith)) h)

  preserve-Counted :
      (path : String) (fault : Fault) (p : Progress)
      → Counted base p
      → Counted base
          (push_error path (some fault) (ignored env (Call.update_sync_error_state path) p))
  unfolding ignored
  preserve-Counted path fault p h =
      push_error-Counted base (after env (Call.update_sync_error_state path) p.log) path
        (some fault) p (rw clean-after (ground arith)) h

  process_action-Counted :
      (action : SyncAction) (p : Progress)
      → Counted base p
      → Counted base (process_action env action p)
  unfolding process_action
  process_action-Counted (SyncAction.create_placeholder_and_inventory path remote) p h =
      reported-Counted path _ p refl h
  process_action-Counted (SyncAction.record_inventory_from_remote path remote mark) p h =
      if-rule (Counted base) mark (λ m. reported-Counted path _ p refl h)
        (λ m. reported-Counted path _ p refl h)
  process_action-Counted (SyncAction.update_inventory_from_remote path remote all) p h =
      reported-Counted path _ p refl h
  process_action-Counted (SyncAction.queue_upload path reason) p h =
      reported-Counted path _ p refl h
  process_action-Counted (SyncAction.queue_download path remote) p h =
      reported-Counted path (Call.enqueue_download path) _ refl
        (ignored-Counted (Call.cancel_by_path path) p refl h)
  process_action-Counted (SyncAction.delete_local_and_inventory path skip) p h =
      if-rule (Counted base) (skip && not_empty (env.count p.log path)) (λ kept. h)
        (λ goes. delete_local-Counted path p h)
  process_action-Counted (SyncAction.create_remote_folder_if_exist path) p h =
      if-rule (Counted base) (env.exists p.log path) (λ here. reported-Counted path _ p refl h)
        (λ gone. h)
  process_action-Counted (SyncAction.rename_local_with_conflict original renamed) p h =
      reported-Counted original (Call.rename original renamed) _ refl
        (ignored-Counted (Call.cancel_by_path original) p refl h)
  process_action-Counted (SyncAction.preserve_unavailable_received_item path) p h =
      preserve-Counted path _ p h

  process_actions-Counted :
      (actions : List SyncAction) (p : Progress)
      → Counted base p
      → Counted base (process_actions env actions p)
  unfolding process_actions
  process_actions-Counted [] p h = h
  process_actions-Counted (action ∷ actions) p h =
      process_actions-Counted actions (process_action env action p)
        (process_action-Counted action p h)

  pub process_list-Counted :
      (parent : String) (actions : List SyncAction) (p : Progress)
      → Counted base p
      → Counted base (process_sync_plan_actions_list env parent actions p)
  unfolding process_sync_plan_actions_list
  process_list-Counted parent actions p h =
      on_outcome-rule (Counted base) (env.attempt p.log Call.parse_drive_id)
        (λ ok.
          process_actions-Counted actions (record p { log = after env Call.parse_drive_id p.log })
            (rw (clean-after, ok) h))
        (λ fault failed.
          push_error-Counted base (after env Call.parse_drive_id p.log) parent (some fault) p
            (rw (clean-after, failed) (ground arith)) h)

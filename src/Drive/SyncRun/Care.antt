-- ===== src/Drive/SyncRun/Care.antt =====
-- What carrying out a plan does: its calls are those that the planned actions permit.
use cloudreve_desktop.Prelude.{
  if-rule, All, String, ◌≡◌, refl, inl, inr, true, false, Option, none, some, List, [], ◌∷◌,
}
use cloudreve_desktop.Dict.{string_eq}
use cloudreve_desktop.Drive.SyncPlan.Model.{SyncAction}
use cloudreve_desktop.Drive.SyncPlan.Content.{path_of}
use cloudreve_desktop.Drive.SyncRun.Calls.{
  Fault, Log, Call, Environment, Progress, after, on_outcome-rule, push_error, reported, ignored,
}
use cloudreve_desktop.Drive.SyncRun.Actions.{
  not_empty, delete_local, process_action, process_actions, process_sync_plan_actions_list,
}
use cloudreve_desktop.Drive.SyncRun.Seen.{
  Earlier, Earlier-refl, Earlier-trans, Permitted, Permitted-later, Allowed, Careful, All-map,
}
use cloudreve_desktop.Drive.SyncRun.Reads.{called}

pub push_error-log :
    (path : String) (outcome : Option Fault) (p : Progress)
    → (push_error path outcome p).log ≡ p.log
unfolding push_error
push_error-log path none p = refl
push_error-log path (some fault) p = refl

module _ (env : Environment) where
  -- The log has grown, by calls that were allowed.
  abbrev pub Kept : Log → Log → Type 0
  Kept base log = Earlier base log × Careful env log

  pub Kept-trans : {a b c : Log} → Kept a b → Kept b c → Kept a c
  Kept-trans {b = b} (e, c) (f, d) = (Earlier-trans {b = b} e f, d)

  reported-Kept :
      (path : String) (call : Call) (p : Progress)
      → Allowed env p.log call
      → Careful env p.log
      → Kept p.log (reported env path call p).log
  unfolding reported
  reported-Kept path call p allowed careful =
      rw push_error-log (called env call p.log allowed careful)

  delete_local-Kept :
      (path : String) (p : Progress)
      → Careful env p.log
      → ((log : Log) → Earlier p.log log → Allowed env log (Call.delete_placeholder path))
      → Kept p.log (delete_local env path p).log
  unfolding delete_local
  delete_local-Kept path p careful allowed =
      let prepared = Call.prepare_local_placeholder_deletion path in
      let (e, c) = called env prepared p.log tt careful in
      on_outcome-rule (λ (q : Progress). Kept p.log q.log) (env.attempt p.log prepared)
        (λ ok.
          Kept-trans {b = after env prepared p.log} (e, c)
            (reported-Kept path (Call.delete_placeholder path)
              (record p { log = after env prepared p.log }) (allowed _ e) c))
        (λ fault failed. rw push_error-log (e, c))

  -- What an action was planned with permits the calls that carry it out.
  process_action-Kept :
      (action : SyncAction) (p : Progress)
      → Permitted env p.log (path_of action) action
      → Careful env p.log
      → Kept p.log (process_action env action p).log
  unfolding process_action ignored
  process_action-Kept (SyncAction.create_placeholder_and_inventory path remote) p h c =
      reported-Kept path (Call.commit path remote false) p tt c
  process_action-Kept (SyncAction.record_inventory_from_remote path remote mark) p h c =
      if-rule (λ (q : Progress). Kept p.log q.log) mark
        (λ m. reported-Kept path (Call.upsert_conflicted path remote) p tt c)
        (λ m. reported-Kept path (Call.commit path remote false) p tt c)
  process_action-Kept (SyncAction.update_inventory_from_remote path remote true) p h c =
      reported-Kept path (Call.commit path remote true) p h c
  process_action-Kept (SyncAction.update_inventory_from_remote path remote false) p h c =
      reported-Kept path (Call.commit path remote false) p tt c
  process_action-Kept (SyncAction.queue_upload path reason) p h c =
      reported-Kept path (Call.enqueue_upload path) p tt c
  process_action-Kept (SyncAction.queue_download path remote) p h c =
      let (e, c') = called env (Call.cancel_by_path path) p.log tt c in
      Kept-trans {b = after env (Call.cancel_by_path path) p.log} (e, c')
        (reported-Kept path (Call.enqueue_download path)
          (record p { log = after env (Call.cancel_by_path path) p.log })
          (remote, Permitted-later {log = p.log} h e) c')
  process_action-Kept (SyncAction.delete_local_and_inventory path false) p h c =
      delete_local-Kept path p c (λ log e. inl (Permitted-later {log = p.log} h e))
  process_action-Kept (SyncAction.delete_local_and_inventory path true) p h c =
      if-rule (λ (q : Progress). Kept p.log q.log) (not_empty (env.count p.log path))
        (λ kept. (Earlier-refl p.log, c))
        (λ empty.
          delete_local-Kept path p c
            (λ log e. inr (Permitted-later {log = p.log} h e, (p.log, e, empty))))
  process_action-Kept (SyncAction.create_remote_folder_if_exist path) p h c =
      if-rule (λ (q : Progress). Kept p.log q.log) (env.exists p.log path)
        (λ here. reported-Kept path (Call.enqueue_upload path) p tt c)
        (λ gone. (Earlier-refl p.log, c))
  process_action-Kept (SyncAction.rename_local_with_conflict original renamed) p h c =
      let (e, c') = called env (Call.cancel_by_path original) p.log tt c in
      Kept-trans {b = after env (Call.cancel_by_path original) p.log} (e, c')
        (reported-Kept original (Call.rename original renamed)
          (record p { log = after env (Call.cancel_by_path original) p.log }) tt c')
  process_action-Kept (SyncAction.preserve_unavailable_received_item path) p h c =
      rw push_error-log (called env (Call.update_sync_error_state path) p.log tt c)

  process_actions-Kept :
      (actions : List SyncAction) (p : Progress)
      → All (λ a. Permitted env p.log (path_of a) a) actions
      → Careful env p.log
      → Kept p.log (process_actions env actions p).log
  unfolding process_actions
  process_actions-Kept [] p h c = (Earlier-refl p.log, c)
  process_actions-Kept (action ∷ actions) p (h, hs) c =
      let (e, c') = process_action-Kept action p h c in
      Kept-trans {b = (process_action env action p).log} (e, c')
        (process_actions-Kept actions (process_action env action p)
          (All-map _ _ actions (λ a h. Permitted-later {log = p.log} h e) hs) c')

  pub process_list-Kept :
      (parent : String) (actions : List SyncAction) (p : Progress)
      → All (λ a. Permitted env p.log (path_of a) a) actions
      → Careful env p.log
      → Kept p.log (process_sync_plan_actions_list env parent actions p).log
  unfolding process_sync_plan_actions_list
  process_list-Kept parent actions p h c =
      let (e, c') = called env Call.parse_drive_id p.log tt c in
      on_outcome-rule (λ (q : Progress). Kept p.log q.log) (env.attempt p.log Call.parse_drive_id)
        (λ ok.
          Kept-trans {b = after env Call.parse_drive_id p.log} (e, c')
            (process_actions-Kept actions (record p { log = after env Call.parse_drive_id p.log })
              (All-map _ _ actions (λ a h. Permitted-later {log = p.log} h e) h) c'))
        (λ fault failed. rw push_error-log (e, c'))

-- ===== src/Tasks/Queue/Cancelled.antt =====
-- tasks/queue.rs: whatever the queue does, a task that has ended before its check of the status is
-- not run.
use cloudreve_desktop.Tasks.Types.{with_task_id, TaskPayload}
use cloudreve_desktop.Tasks.Queue.Quiet.{shutdown-Quiet, abort_tasks-Quiet, Everywhere, Quiet}
use cloudreve_desktop.Tasks.Queue.Settled.{
  busy, Everywhere-set, Everywhere-get, Work-Settled, not_busy, Everywhere-snoc, IsIdle, Settled,
}
use cloudreve_desktop.Tasks.Queue.SettledRows.{
  insert-RowsSettled, cancel_row-settled, unsettled, map-RowsSettled, RowsSettled,
}
use cloudreve_desktop.Tasks.Queue.Operations.{
  enqueue, launch, is_stopped, dispatched, abort_path, send, cancel_rows, receive, persisted,
  insert_handle, dispatch_task,
}
use cloudreve_desktop.Prelude.Int.{ℤ}
use cloudreve_desktop.Prelude.{
  ◌>>=◌, if-rule, any, String, ◌≡◌, refl, sym, subst, ◌⊎◌, Bool, true, false, Option, none, some,
  option_map, List,
}
use cloudreve_desktop.Dict.{string_eq}
use cloudreve_desktop.Inventory.Models.{NewTaskRecord, Platform}
use cloudreve_desktop.Inventory.Tasks.{
  has_id, same_active_task, new_row, or_else, update_where, row_from_record,
  insert_task_if_not_exist, insert_row, TaskRow,
}
use cloudreve_desktop.Inventory.Tasks.Queries.{cancel_tasks_by_path, cancel_row, Like}
use cloudreve_desktop.Tasks.Queue.State.{Refusal, TaskQueue, QueueCommand, Phase}
use cloudreve_desktop.Tasks.Queue.Step.{set_phase, Step, Reach}

cancel_row-id : {p : Platform} (now : ℤ) (row : TaskRow p) → (cancel_row p now row).id ≡ row.id
unfolding cancel_row
cancel_row-id now row = refl

module _ (p : Platform) (id : String) where
  inserted-RowsSettled :
      (task : NewTaskRecord p) (rows : List (TaskRow p)) (state : Option (Option String))
      → RowsSettled p id rows
      → RowsSettled p id (
          or_else
            (option_map
              (λ (r : Bool × List (TaskRow p)). r.1)
              ((state >>= λ s. some (new_row p task s)) >>= λ row.
                insert_row p row rows >>= λ after. some (true, after)))
            rows)
  unfolding insert_row
  inserted-RowsSettled task rows none r = r
  inserted-RowsSettled task rows (some s) r =
      if-rule
        (λ o. RowsSettled p id (
          or_else
            (option_map (λ (q : Bool × List (TaskRow p)). q.1) (o >>= λ after. some (true, after)))
            rows))
        (any (has_id p (new_row p task s).id) rows) (λ taken. r)
        (λ free. insert-RowsSettled p id (new_row p task s) rows free r)

  insert_task-RowsSettled :
      (task : NewTaskRecord p) (rows : List (TaskRow p))
      → RowsSettled p id rows
      → RowsSettled p id (
          or_else
            (option_map
              (λ (r : Bool × List (TaskRow p)). r.1)
              (insert_task_if_not_exist p task rows))
            rows)
  unfolding insert_task_if_not_exist row_from_record
  insert_task-RowsSettled task rows r =
      if-rule
        (λ o. RowsSettled p id (or_else (option_map (λ (q : Bool × List (TaskRow p)). q.1) o) rows))
        (any (same_active_task p task) rows) (λ found. r)
        (λ new. inserted-RowsSettled task rows _ r)

  dispatched-Settled :
      (task_id : String) (payload : TaskPayload p) (q : TaskQueue p)
      → Settled p id q
      → Settled p id (dispatched p task_id q (dispatch_task p task_id payload q)).1
  unfolding dispatch_task send Settled dispatched
  dispatched-Settled task_id payload q s =
      if-rule (λ o. Settled p id (dispatched p task_id q o).1) (is_stopped p q.dispatcher)
        (λ closed. s) (λ opened. s)

  persisted-Settled :
      (task_id : String) (payload : TaskPayload p) (q : TaskQueue p)
      (o : Option (Bool × List (TaskRow p)))
      → RowsSettled p id (or_else (option_map (λ (r : Bool × List (TaskRow p)). r.1) o) q.rows)
      → Settled p id q
      → Settled p id (persisted p task_id payload q o).1
  unfolding persisted Settled
  persisted-Settled task_id payload q none r s = s
  persisted-Settled task_id payload q (some (false, rows)) r s = s
  persisted-Settled task_id payload q (some (true, rows)) r (old, idle) =
      dispatched-Settled task_id (with_task_id p task_id payload) (record q { rows = rows })
        (r, idle)

  enqueue-Settled :
      (payload : TaskPayload p) (fresh : String) (now : ℤ) (q : TaskQueue p)
      → Settled p id q
      → Settled p id (enqueue p payload fresh now q).1
  unfolding enqueue Settled
  enqueue-Settled payload fresh now q s =
      if-rule (λ (r : (Refusal ⊎ String) × TaskQueue p). Settled p id r.1) q.shutting_down
        (λ down. s) (λ up. persisted-Settled _ payload q _ (insert_task-RowsSettled _ q.rows s.0) s)

  Quiet-Settled : {q r : TaskQueue p} → Quiet p q r → Settled p id q → Settled p id r
  unfolding Settled
  Quiet-Settled k (rows, idle) =
      (subst (RowsSettled p id) (sym k.rows) rows, k.workers (IsIdle p id) idle)

  receive-Settled :
      (command : QueueCommand p) (q : TaskQueue p)
      → Settled p id q
      → Settled p id (receive p command q)
  unfolding receive Settled
  receive-Settled (QueueCommand.enqueue task) q s = s
  receive-Settled QueueCommand.shutdown q s = s

  cancel_tasks-RowsSettled :
      (like : Like) (drive_id path : String) (now : ℤ) (rows : List (TaskRow p))
      → RowsSettled p id rows
      → RowsSettled p id (cancel_tasks_by_path p like drive_id path now rows).1
  unfolding cancel_tasks_by_path update_where
  cancel_tasks-RowsSettled like drive_id path now rows r =
      map-RowsSettled p id _ rows
        (λ row.
          if-rule
            (λ (c : TaskRow p).
              (c.id ≡ row.id) × (unsettled p id row ≡ false → unsettled p id c ≡ false))
            _ (λ e. (cancel_row-id now row, λ u. cancel_row-settled p id now row))
            (λ e. (refl, λ u. u)))
        r

  Step-Settled :
      {like : Like} {q r : TaskQueue p} → Step p like false q r → Settled p id q → Settled p id r
  unfolding insert_handle cancel_rows abort_path Settled launch set_phase busy
  Step-Settled {q = q} (Step.enqueues payload fresh now) s = enqueue-Settled payload fresh now q s
  Step-Settled (Step.receives command commands e idle) s = receive-Settled command _ s
  Step-Settled {q = q} (Step.launches task e h) (rows, idle) =
      (rows, Everywhere-snoc p id q.workers _ (not_busy p id task Phase.spawned refl) idle)
  Step-Settled (Step.inserts task_id n e) s = s
  Step-Settled (Step.inserts_last task_id n e) s = s
  Step-Settled {q = q} (Step.works i w {phase = phase} {after = after} e work) (rows, idle) =
      let ((here_idle, rows_after), same) =
        Work-Settled p id work (Everywhere-get p id q.workers i w e idle) rows in
      (
        rows_after,
        Everywhere-set p id after.workers i (record w { phase = phase }) here_idle
            (subst (Everywhere p (IsIdle p id)) (sym same) idle),
      )
  Step-Settled {like = like} {q = q} (Step.cancels path now) (rows, idle) =
      (cancel_tasks-RowsSettled like q.drive_id path now q.rows rows, idle)
  Step-Settled (Step.aborts path before after e) s = Quiet-Settled (abort_tasks-Quiet p _ _) s
  Step-Settled {q = q} Step.shuts_down s = Quiet-Settled (shutdown-Quiet p q) s

  -- However callers, dispatcher and tasks interleave, a task whose rows all have a final status
  -- (completed, failed or cancelled) and that none of the spawned tasks is running, whether or not it
  -- is still queued, keeps a final status and is not run, if no call of the database fails.
  pub Reach-Settled :
      {like : Like} {q r : TaskQueue p} → Reach p like false q r → Settled p id q → Settled p id r
  Reach-Settled Reach.here s = s
  Reach-Settled (Reach.next path step) s = Step-Settled step (Reach-Settled path s)

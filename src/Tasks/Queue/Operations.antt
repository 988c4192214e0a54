-- ===== src/Tasks/Queue/Operations.antt =====
-- tasks/queue.rs: what the calls, the dispatcher and a spawned task do to the state of a queue.
use cloudreve_desktop.Tasks.Queue.{payload_from_record, record_for}
use cloudreve_desktop.Inventory.Tasks.Queries.{
  cancel_tasks_by_path, main_separator, list_tasks, Like,
}
use cloudreve_desktop.Inventory.Tasks.{update_task, insert_task_if_not_exist, or_else, TaskRow}
use cloudreve_desktop.Prelude.Int.{ℤ}
use cloudreve_desktop.Prelude.{
  if◌then◌else◌, ◌>>=◌, length, filter_by, u64_mod, sub_u64, ℕ, zero, suc, ◌+◌, ◌-◌, ◌%◌, String,
  ◌<>◌, ◌⊎◌, inl, inr, Bool, true, false, ◌||◌, Option, none, some, List, [], ◌∷◌, ◌++◌, map,
  starts_with, str_eq,
}
use cloudreve_desktop.Inventory.Models.{
  is_running, no_update, is_active, TaskUpdate, TaskStatus, TaskRecord, Platform,
}
use cloudreve_desktop.Tasks.Types.{with_task_id, from_payload, TaskProgress, TaskPayload}
use cloudreve_desktop.Tasks.Queue.State.{
  TaskRunState, TaskQueue, QueueCommand, Refusal, Phase, Dispatcher, QueuedTask, Worker,
}
use cloudreve_desktop.Dict.{insert, remove, lookup, string_eq}

module _ (p : Platform) where
  unfoldable pub is_stopped : Dispatcher p → Bool
  is_stopped Dispatcher.receiving = false
  is_stopped (Dispatcher.acquiring task) = false
  is_stopped (Dispatcher.inserting id n) = false
  is_stopped (Dispatcher.stopping id n) = false
  is_stopped Dispatcher.stopped = true

  -- `command_tx.send`, which fails once the dispatcher has dropped its end.
  unfoldable pub send : QueueCommand p → TaskQueue p → Option (TaskQueue p)
  send command q =
      if is_stopped q.dispatcher
      then none
      else some (record q { commands = q.commands ++ command ∷ [] })

  unfoldable pub dispatch_task : String → TaskPayload p → TaskQueue p → Option (TaskQueue p)
  dispatch_task task_id payload q =
      send (QueueCommand.enqueue (record { task_id = task_id; payload = payload })) q

  unfoldable pub dispatched :
      String → TaskQueue p → Option (TaskQueue p) → (Refusal ⊎ String) × TaskQueue p
  dispatched task_id q none = (inl Refusal.dispatcher_closed, q)
  dispatched task_id q (some r) = (inr task_id, r)

  unfoldable pub persisted :
      String
      → TaskPayload p
      → TaskQueue p
      → Option (Bool × List (TaskRow p))
      → (Refusal ⊎ String) × TaskQueue p
  persisted task_id payload q none = (inl Refusal.not_persisted, q)
  persisted task_id payload q (some (false, rows)) = (inl Refusal.already_exists, q)
  persisted task_id payload q (some (true, rows)) =
      dispatched task_id (record q { rows = rows })
        (dispatch_task task_id (with_task_id p task_id payload) (record q { rows = rows }))

  -- `fresh` is the new UUID.
  unfoldable pub enqueue :
      TaskPayload p → String → ℤ → TaskQueue p → (Refusal ⊎ String) × TaskQueue p
  enqueue payload fresh now q =
      let task_id = or_else payload.task_id fresh in
      if q.shutting_down
      then (inl Refusal.shutting_down, q)
      else persisted task_id payload q
          (insert_task_if_not_exist p (record_for p q.drive_id task_id payload now) q.rows)

  -- A turn of `run_dispatch_loop`.
  unfoldable pub receive : QueueCommand p → TaskQueue p → TaskQueue p
  receive (QueueCommand.enqueue task) q = record q { dispatcher = Dispatcher.acquiring task }
  receive QueueCommand.shutdown q = record q { dispatcher = Dispatcher.stopped }

  -- `launch_task` once a permit is there: `fetch_add`, which wraps, and the spawning.
  unfoldable pub launch : QueuedTask p → TaskQueue p → TaskQueue p
  launch task q = record q {
    permits = q.permits - 1;
    inflight = (q.inflight + 1) % u64_mod;
    workers = q.workers ++ record { task = task; phase = Phase.spawned; aborted = false } ∷ [];
    dispatcher = Dispatcher.inserting task.task_id (length q.workers);
  }

  unfoldable pub insert_handle : String → ℕ → Dispatcher p → TaskQueue p → TaskQueue p
  insert_handle task_id n next q = record q {
    task_handles = insert task_id n q.task_handles;
    dispatcher = next;
  }

  -- `execute_task` up to the update of the status. A row whose status is not a known one is taken
  -- for none, and the task goes on.
  unfoldable pub check_status : Option TaskStatus → Phase
  check_status none = Phase.checked
  check_status (some status) = if is_active status then Phase.checked else Phase.ended

  unfoldable pub status_update : TaskStatus → TaskUpdate p
  status_update status = record (no_update p) { status = some status }

  -- The update of the row that a result makes.
  unfoldable pub outcome_update : String ⊎ TaskRunState → TaskUpdate p
  outcome_update (inl err) = record (status_update TaskStatus.failed) { error = some (some err) }
  outcome_update (inr TaskRunState.completed) = status_update TaskStatus.completed
  outcome_update (inr TaskRunState.cancelled) = status_update TaskStatus.cancelled

  unfoldable pub cleanup_task_entry : String → TaskQueue p → TaskQueue p
  cleanup_task_entry task_id q = record q {
    progress = remove task_id q.progress;
    task_paths = remove task_id q.task_paths;
  }

  unfoldable pub register_path : QueuedTask p → TaskQueue p → TaskQueue p
  register_path task q = record q {
    task_paths = insert task.task_id task.payload.local_path q.task_paths;
  }

  unfoldable pub register_progress_entry : QueuedTask p → TaskQueue p → TaskQueue p
  register_progress_entry task q = record q {
    progress = insert task.task_id (from_payload p task.task_id task.payload) q.progress;
  }

  unfoldable pub release : TaskQueue p → TaskQueue p
  release q = record q { permits = q.permits + 1 }

  -- `fetch_sub`.
  unfoldable pub lower_inflight : TaskQueue p → TaskQueue p
  lower_inflight q = record q { inflight = sub_u64 q.inflight 1 }

  unfoldable pub forget_handle : String → TaskQueue p → TaskQueue p
  forget_handle task_id q = record q { task_handles = remove task_id q.task_handles }

  unfoldable pub set_aborted : ℕ → List (Worker p) → List (Worker p)
  set_aborted n [] = []
  set_aborted zero (w ∷ ws) = record w { aborted = true } ∷ ws
  set_aborted (suc n) (w ∷ ws) = w ∷ set_aborted n ws

  unfoldable pub abort_handle : Option ℕ → List (Worker p) → List (Worker p)
  abort_handle none ws = ws
  abort_handle (some n) ws = set_aborted n ws

  -- What `cancel_by_path` and `cancel_running_tasks` do with one task.
  unfoldable pub abort_task : String → TaskQueue p → TaskQueue p
  abort_task task_id q = record q {
    workers = abort_handle (lookup task_id q.task_handles) q.workers;
    task_handles = remove task_id q.task_handles;
    task_paths = remove task_id q.task_paths;
    progress = remove task_id q.progress;
  }

  unfoldable pub abort_tasks : List String → TaskQueue p → TaskQueue p
  abort_tasks [] q = q
  abort_tasks (task_id ∷ task_ids) q = abort_tasks task_ids (abort_task task_id q)

  -- The first half of `cancel_by_path`, and the number that it returns.
  unfoldable pub cancel_rows : Like → String → ℤ → TaskQueue p → ℕ × TaskQueue p
  cancel_rows like path now q =
      let cancelled = cancel_tasks_by_path p like q.drive_id path now q.rows in
      (length cancelled.0, record q { rows = cancelled.1; cancelling = q.cancelling ++ path ∷ [] })

  unfoldable pub below_path : String → String × String → Bool
  below_path path entry = str_eq entry.1 path || starts_with entry.1 (path <> main_separator)

  -- The second half, for a path that the first half was for.
  unfoldable pub abort_path : String → TaskQueue p → TaskQueue p
  abort_path path q =
      abort_tasks (map (λ (e : String × String). e.0) (filter_by (below_path path) q.task_paths)) q

  unfoldable pub abort_dispatcher : Dispatcher p → Dispatcher p
  abort_dispatcher Dispatcher.receiving = Dispatcher.stopped
  abort_dispatcher (Dispatcher.acquiring t) = Dispatcher.stopped
  abort_dispatcher (Dispatcher.inserting id n) = Dispatcher.stopping id n
  abort_dispatcher (Dispatcher.stopping id n) = Dispatcher.stopping id n
  abort_dispatcher Dispatcher.stopped = Dispatcher.stopped

  unfoldable pub cancel_running_tasks : TaskQueue p → TaskQueue p
  cancel_running_tasks q = abort_tasks (map (λ (e : String × TaskProgress p). e.0) q.progress) q

  unfoldable pub shutdown : TaskQueue p → TaskQueue p
  shutdown q =
      if q.shutting_down
      then q
      else let sent =
          or_else (send QueueCommand.shutdown (record q { shutting_down = true }))
            (record q { shutting_down = true }) in
        let halted = record sent { dispatcher = abort_dispatcher sent.dispatcher } in
        record (cancel_running_tasks halted) { task_handles = []; task_paths = []; progress = [] }

  -- `resume_incomplete_tasks`, record by record. A record whose status cannot be reset is passed
  -- over, and so is one that makes no payload or cannot be dispatched.
  unfoldable pub reset_status : TaskRecord p → ℤ → TaskQueue p → Option (List (TaskRow p))
  reset_status r now q =
      if is_running r.status
      then update_task p r.id (status_update TaskStatus.pending) now q.rows
      else some q.rows

  unfoldable pub resume_reset : TaskRecord p → TaskQueue p → Option (List (TaskRow p)) → TaskQueue p
  resume_reset r q none = q
  resume_reset r q (some rows) =
      or_else
        (do
          payload ← payload_from_record p r
          dispatch_task r.id payload (record q { rows = rows }))
        (record q { rows = rows })

  unfoldable pub resume_task : TaskRecord p → ℤ → TaskQueue p → TaskQueue p
  resume_task r now q = resume_reset r q (reset_status r now q)

  unfoldable pub resume_tasks : List (TaskRecord p) → ℤ → TaskQueue p → TaskQueue p
  resume_tasks [] now q = q
  resume_tasks (r ∷ records) now q = resume_tasks records now (resume_task r now q)

  unfoldable pub resume_incomplete_tasks : ℤ → TaskQueue p → Option (TaskQueue p)
  resume_incomplete_tasks now q = do
    records ←
        list_tasks p (some q.drive_id) (some (TaskStatus.pending ∷ TaskStatus.running ∷ [])) q.rows
    some (resume_tasks records now q)

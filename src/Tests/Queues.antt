-- ===== src/Tests/Queues.antt =====
-- The task table and the task queue at concrete inputs.
use cloudreve_desktop.Tasks.Queue.Quiet.{Everywhere}
use cloudreve_desktop.Tasks.Queue.Cancelled.{Reach-Settled}
use cloudreve_desktop.Tasks.Queue.Settled.{IsIdle, Settled}
use cloudreve_desktop.Tasks.Queue.SettledRows.{unsettled, RowsSettled}
use cloudreve_desktop.Tasks.Queue.Counters.{permits_bound, inflight_exact, uncounted, holds}
use cloudreve_desktop.Inventory.Tasks.Queries.{
  finished_statuses, cancel_tasks_by_path, matches_path, main_separator, cancel_row, order_by,
  list_tasks,
}
use cloudreve_desktop.Tasks.Queue.Frame.{sum_by}
use cloudreve_desktop.Tasks.Queue.Operations.{
  cancel_rows, check_status, resume_tasks, is_stopped, send, dispatch_task, dispatched, persisted,
  resume_incomplete_tasks, receive, launch, enqueue, status_update,
}
use cloudreve_desktop.Tasks.Queue.{with_state, with_known_totals, payload_from_record, record_for}
use cloudreve_desktop.Tasks.Queue.Resume.{payload_from_record-record_for, resumed, Reads}
use cloudreve_desktop.Prelude.{
  some_inj, ◌>>=◌, ℕ, String, ◌≡◌, sym, ap, Bool, true, false, none, some, [], refl, u64_mod, ◌+◌,
  ◌%◌, arith,
}
use cloudreve_desktop.Prelude.Int.{pos}
use cloudreve_desktop.Dict.{string_eq}
use cloudreve_desktop.Inventory.Models.{
  status_from_str, is_empty, is_active, no_update, status_as_str, new_task_record, NewTaskRecord,
  Platform, TaskStatus,
}
use cloudreve_desktop.Inventory.Tasks.{
  get_task_status, apply_changeset, update_where, changeset_with, changeset_from_update,
  update_task, active_statuses, eq_any, has_id, insert_row, row_from_record, same_active_task,
  new_row, record_from_row, insert_task_if_not_exist,
}
use cloudreve_desktop.Inventory.Tasks.Unique.{History-UniqueActive}
use cloudreve_desktop.Inventory.Tasks.History.{
  row_active, activates, reactivates, run, UniqueActive, Keeps, Operation, History,
}
use cloudreve_desktop.Tasks.Types.{with_task_id, kind_as_str, TaskPayload, TaskKind}
use cloudreve_desktop.Tasks.Queue.State.{new, TaskQueue, QueueCommand, Phase, QueuedTask}
use cloudreve_desktop.Tasks.Queue.Step.{started, set_phase, Work, Step, Reach}
use cloudreve_desktop.Inventory.Models

abbrev platform : Platform
platform = record { Value = String; to_string = some; from_str = some; F64 = ℕ; f64_zero = 0 }

platform-Reads : Reads platform
unfolding Reads
platform-Reads v s e = ap some (sym (some_inj.0 e))

abbrev like_all : String → String → Bool
like_all pattern text = true

abbrev payload : TaskPayload platform
payload = record {
  task_id = some "t1";
  kind = TaskKind.upload;
  local_path = "C:\\a.txt";
  priority = pos 0;
  total_bytes = some (pos 10);
  processed_bytes = none;
  custom_state = some "state";
  force_override = true;
}

abbrev record_of : String → NewTaskRecord platform
record_of id = record_for platform "d" id payload (pos 1)

History-UniqueActive_example : UniqueActive (
    run (Operation.insert (record_of "t2")) (
      run
        (Operation.update "t1" (status_update platform TaskStatus.running) (pos 2))
        (run (Operation.insert (record_of "t1")) [])))
unfolding Keeps UniqueActive insert_task_if_not_exist run same_active_task record_for
    new_task_record with_known_totals with_state Models.with_totals Models.with_priority
    Models.with_custom_state kind_as_str status_as_str row_from_record new_row insert_row has_id
    eq_any active_statuses reactivates activates row_active status_update no_update is_active
    update_task is_empty changeset_from_update changeset_with update_where apply_changeset
History-UniqueActive_example =
    History-UniqueActive {first = []}
      (History.step (Operation.insert (record_of "t2")) tt (
        History.step (Operation.update "t1" (status_update platform TaskStatus.running) (pos 2))
          (refl, tt) (History.step (Operation.insert (record_of "t1")) tt History.start)))
      tt

-- A second task for the path is not inserted.
second_refused :
    insert_task_if_not_exist platform (record_of "t2") (run (Operation.insert (record_of "t1")) [])
    ≡ some (false, run (Operation.insert (record_of "t1")) [])
unfolding insert_task_if_not_exist run same_active_task record_for new_task_record with_known_totals
    with_state Models.with_totals Models.with_priority Models.with_custom_state kind_as_str
    status_as_str row_from_record new_row insert_row has_id eq_any active_statuses
second_refused = refl

payload_from_record-record_for_example :
    (record_from_row platform (new_row platform (record_of "t1") (some "state"))
      >>= payload_from_record platform)
    ≡ some (resumed "t1" payload)
unfolding row_from_record record_for with_state Models.with_custom_state
payload_from_record-record_for_example =
    payload_from_record-record_for platform platform-Reads "d" "t1" payload (pos 1)
      (new_row platform (record_of "t1") (some "state")) refl

abbrev empty_queue : TaskQueue platform
empty_queue = started platform "d" 1 [] (pos 0)

abbrev queued : TaskQueue platform
queued = (enqueue platform payload "fresh" (pos 1) empty_queue).1

abbrev task : QueuedTask platform
task = record { task_id = "t1"; payload = payload }

abbrev launched : TaskQueue platform
launched =
    launch platform task
      (receive platform (QueueCommand.enqueue task) (record queued { commands = [] }))

abbrev begun : TaskQueue platform
begun =
    set_phase platform 0 (record { task = task; phase = Phase.spawned; aborted = false })
      Phase.checked launched

begun-Reach : Reach platform like_all false empty_queue begun
unfolding started resume_incomplete_tasks list_tasks order_by new enqueue persisted dispatched
    dispatch_task send is_stopped with_task_id receive launch resume_tasks check_status
    get_task_status is_active status_from_str set_phase insert_task_if_not_exist same_active_task
    record_for new_task_record with_known_totals with_state Models.with_totals Models.with_priority
    Models.with_custom_state kind_as_str status_as_str row_from_record new_row insert_row has_id
    eq_any active_statuses
begun-Reach =
    Reach.next
      (Reach.next
        (Reach.next (Reach.next Reach.here (Step.enqueues payload "fresh" (pos 1)))
          (Step.receives (QueueCommand.enqueue task) [] refl refl))
        (Step.launches task refl (omega arith)))
      (Step.works 0 (record { task = task; phase = Phase.spawned; aborted = false }) refl
        Work.begins)

permits_bound_example : begun.permits + sum_by platform holds begun.workers ≡ 1
permits_bound_example = permits_bound platform "d" 1 [] (pos 0) begun-Reach

inflight_exact_example : begun.inflight ≡ sum_by platform uncounted begun.workers % u64_mod
inflight_exact_example = inflight_exact platform "d" 1 [] (pos 0) begun-Reach

-- The task is cancelled while it is queued, and the dispatcher launches it all the same.
abbrev cancelled_in_queue : TaskQueue platform
cancelled_in_queue = (cancel_rows platform like_all "C:" (pos 2) queued).1

abbrev skipped : TaskQueue platform
skipped =
    set_phase platform 0 (record { task = task; phase = Phase.spawned; aborted = false })
      Phase.ended
      (launch platform task (
        receive platform (QueueCommand.enqueue task) (record cancelled_in_queue { commands = [] })))

skipped-Reach : Reach platform like_all false cancelled_in_queue skipped
unfolding started resume_incomplete_tasks list_tasks order_by new enqueue persisted dispatched
    dispatch_task send is_stopped with_task_id receive launch resume_tasks check_status
    get_task_status is_active status_from_str set_phase cancel_rows cancel_tasks_by_path
    matches_path main_separator cancel_row update_where insert_task_if_not_exist same_active_task
    record_for new_task_record with_known_totals with_state Models.with_totals Models.with_priority
    Models.with_custom_state kind_as_str status_as_str row_from_record new_row insert_row has_id
    eq_any active_statuses
skipped-Reach =
    Reach.next
      (Reach.next (Reach.next Reach.here (Step.receives (QueueCommand.enqueue task) [] refl refl))
        (Step.launches task refl (omega arith)))
      (Step.works 0 (record { task = task; phase = Phase.spawned; aborted = false }) refl
        Work.begins)

cancelled_in_queue-Settled : Settled platform "t1" cancelled_in_queue
unfolding Settled RowsSettled unsettled finished_statuses Everywhere IsIdle started
    resume_incomplete_tasks list_tasks order_by new enqueue persisted dispatched dispatch_task send
    is_stopped with_task_id receive launch resume_tasks check_status get_task_status is_active
    status_from_str set_phase cancel_rows cancel_tasks_by_path matches_path main_separator
    cancel_row update_where insert_task_if_not_exist same_active_task record_for new_task_record
    with_known_totals with_state Models.with_totals Models.with_priority Models.with_custom_state
    kind_as_str status_as_str row_from_record new_row insert_row has_id eq_any active_statuses
cancelled_in_queue-Settled = ((refl, refl), tt)

Reach-Settled_example : Settled platform "t1" skipped
Reach-Settled_example = Reach-Settled platform "t1" skipped-Reach cancelled_in_queue-Settled

-- ===== src/Tasks/Queue/Step.antt =====
-- tasks/queue.rs: the steps of a queue, which any number of callers, the dispatcher and the spawned
-- tasks take in any order. What runs without an `await` that waits is one step: `enqueue`, `shutdown`
-- and each of the two halves of `cancel_by_path`, while a spawned task stops between any two of its
-- accesses to shared state. An abort takes effect before the first poll of a task or while
-- `run_placeholder_task` waits; that one's result is arbitrary. `like` is SQLite's operator, and a
-- call of the database fails only where `faults` is true.
use cloudreve_desktop.Tasks.Types.{TaskPayload}
use cloudreve_desktop.Tasks.Queue.Operations.{
  forget_handle, lower_inflight, release, cleanup_task_entry, outcome_update, shutdown,
  register_progress_entry, abort_path, register_path, cancel_rows, insert_handle, status_update,
  launch, resume_incomplete_tasks, receive, enqueue, check_status,
}
use cloudreve_desktop.Inventory.Tasks.{update_task, or_else, get_task_status, TaskRow}
use cloudreve_desktop.Prelude.Int.{ℤ}
use cloudreve_desktop.Prelude.{
  get_elem?, set, ℕ, ◌<◌, String, ◌≡◌, ◌⊎◌, Bool, true, false, some, List, ◌∷◌, ◌++◌,
}
use cloudreve_desktop.Inventory.Models.{TaskStatus, Platform}
use cloudreve_desktop.Inventory.Tasks.Queries.{Like}
use cloudreve_desktop.Tasks.Queue.State.{
  TaskRunState, new, TaskQueue, QueueCommand, Phase, Dispatcher, QueuedTask, Worker,
}

module _ (p : Platform) where
  -- A step of a spawned task in a phase, aborted or not, to the next one.
  pub data Work (faults : Bool) (q : TaskQueue p) (task : QueuedTask p)
      : Phase → Bool → Phase → TaskQueue p → Type 0 where
    begins :
        Work faults q task Phase.spawned false
          (check_status p (get_task_status p task.task_id q.rows))
          q
    begins_unchecked : faults ≡ true → Work faults q task Phase.spawned false Phase.checked q
    marks :
        {aborted : Bool} (now : ℤ) (rows : List (TaskRow p))
        → update_task p task.task_id (status_update p TaskStatus.running) now q.rows ≡ some rows
        → Work faults q task Phase.checked aborted Phase.marked (record q { rows = rows })
    mark_fails :
        {aborted : Bool} → faults ≡ true → Work faults q task Phase.checked aborted Phase.ended q
    registers_path :
        {aborted : Bool}
        → Work faults q task Phase.marked aborted Phase.pathed (register_path p task q)
    registers_progress :
        {aborted : Bool}
        → Work faults q task Phase.pathed aborted Phase.running (register_progress_entry p task q)
    returns :
        {aborted : Bool} (result : String ⊎ TaskRunState)
        → Work faults q task Phase.running aborted (Phase.finishing result) q
    records :
        {aborted : Bool} {result : String ⊎ TaskRunState} (now : ℤ) (rows : List (TaskRow p))
        → update_task p task.task_id (outcome_update p result) now q.rows ≡ some rows
        → Work faults q task
            (Phase.finishing result)
            aborted
            Phase.cleaning
            (record q { rows = rows })
    record_fails :
        {aborted : Bool} {result : String ⊎ TaskRunState}
        → faults ≡ true
        → Work faults q task (Phase.finishing result) aborted Phase.cleaning q
    cleans :
        {aborted : Bool}
        → Work faults q task Phase.cleaning aborted Phase.ended
            (cleanup_task_entry p task.task_id q)
    releases :
        {aborted : Bool} → Work faults q task Phase.ended aborted Phase.released (release p q)
    counts :
        {aborted : Bool}
        → Work faults q task Phase.released aborted Phase.counted (lower_inflight p q)
    forgets :
        {aborted : Bool}
        → Work faults q task Phase.counted aborted Phase.gone (forget_handle p task.task_id q)
    drops_spawned : Work faults q task Phase.spawned true Phase.dropped (release p q)
    drops_running : Work faults q task Phase.running true Phase.dropped (release p q)

  unfoldable pub set_phase : ℕ → Worker p → Phase → TaskQueue p → TaskQueue p
  set_phase i w phase q = record q { workers = set q.workers i (record w { phase = phase }) }

  pub data Step (like : Like) (faults : Bool) (q : TaskQueue p) : TaskQueue p → Type 0 where
    enqueues :
        (payload : TaskPayload p) (fresh : String) (now : ℤ)
        → Step like faults q (enqueue p payload fresh now q).1
    receives :
        (command : QueueCommand p) (commands : List (QueueCommand p))
        → q.commands ≡ command ∷ commands
        → q.dispatcher ≡ Dispatcher.receiving
        → Step like faults q (receive p command (record q { commands = commands }))
    launches :
        (task : QueuedTask p)
        → q.dispatcher ≡ Dispatcher.acquiring task
        → 0 < q.permits
        → Step like faults q (launch p task q)
    inserts :
        (task_id : String) (n : ℕ)
        → q.dispatcher ≡ Dispatcher.inserting task_id n
        → Step like faults q (insert_handle p task_id n Dispatcher.receiving q)
    inserts_last :
        (task_id : String) (n : ℕ)
        → q.dispatcher ≡ Dispatcher.stopping task_id n
        → Step like faults q (insert_handle p task_id n Dispatcher.stopped q)
    works :
        (i : ℕ) (w : Worker p) {phase : Phase} {after : TaskQueue p}
        → get_elem? q.workers i ≡ some w
        → Work faults q w.task w.phase w.aborted phase after
        → Step like faults q (set_phase i w phase after)
    cancels : (path : String) (now : ℤ) → Step like faults q (cancel_rows p like path now q).1
    aborts :
        (path : String) (before after : List String)
        → q.cancelling ≡ before ++ path ∷ after
        → Step like faults q (abort_path p path (record q { cancelling = before ++ after }))
    shuts_down : Step like faults q (shutdown p q)

  pub data Reach (like : Like) (faults : Bool) (q : TaskQueue p) : TaskQueue p → Type 0 where
    here : Reach like faults q q
    next :
        {r s : TaskQueue p} → Reach like faults q r → Step like faults r s → Reach like faults q s

  -- `TaskQueue::new` with the resumed tasks; a failure to list them is passed over.
  unfoldable pub started : String → ℕ → List (TaskRow p) → ℤ → TaskQueue p
  started drive_id max_concurrent rows now =
      or_else (resume_incomplete_tasks p now (new p drive_id max_concurrent rows))
        (new p drive_id max_concurrent rows)

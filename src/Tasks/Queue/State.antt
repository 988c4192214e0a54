-- ===== src/Tasks/Queue/State.antt =====
-- tasks/queue.rs: the state of a queue, with the dispatcher and the spawned tasks, and what each
-- operation does to it. A handle is a position in the list of the spawned tasks. The semaphore is
-- never closed, so that acquiring a permit does not fail. `cancel_requested` is never read and
-- `idle_notify` only wakes `wait_for_idle`: both are left out, as is the logging.
use cloudreve_desktop.Prelude.{ℕ, max, String, ◌⊎◌, Bool, false, List, []}
use cloudreve_desktop.Inventory.Models.{Platform}
use cloudreve_desktop.Inventory.Tasks.{TaskRow}
use cloudreve_desktop.Tasks.Types.{TaskPayload, TaskProgress}

pub record QueuedTask (p : Platform) : Type 0 where
  pub task_id : String
  pub payload : TaskPayload p

pub data QueueCommand (p : Platform) : Type 0 where
  enqueue : QueuedTask p → QueueCommand p
  shutdown : QueueCommand p

pub data TaskRunState : Type 0 where
  completed cancelled : TaskRunState

-- Where a spawned task is: before `execute_task`, after its check of the status, after it is marked
-- as running, after its path and then its progress are registered, with the result of
-- `run_placeholder_task`, before `cleanup_task_entry`, after `execute_task`, after the permit is
-- dropped, after `inflight` is lowered, after its handle is removed; or dropped by an abort.
pub data Phase : Type 0 where
  spawned checked marked pathed running : Phase
  finishing : String ⊎ TaskRunState → Phase
  cleaning ended released counted gone dropped : Phase

pub record Worker (p : Platform) : Type 0 where
  pub task : QueuedTask p
  pub phase : Phase
  pub aborted : Bool

-- The dispatcher awaits a command, awaits a permit for a task, or has yet to insert a handle, after
-- which an aborted one stops.
pub data Dispatcher (p : Platform) : Type 0 where
  receiving : Dispatcher p
  acquiring : QueuedTask p → Dispatcher p
  inserting : String → ℕ → Dispatcher p
  stopping : String → ℕ → Dispatcher p
  stopped : Dispatcher p

pub record TaskQueue (p : Platform) : Type 0 where
  pub drive_id : String
  pub max_concurrent : ℕ
  pub rows : List (TaskRow p)
  pub commands : List (QueueCommand p)
  pub permits : ℕ
  pub inflight : ℕ
  pub shutting_down : Bool
  pub progress : List (String × TaskProgress p)
  pub task_handles : List (String × ℕ)
  pub task_paths : List (String × String)
  pub dispatcher : Dispatcher p
  pub workers : List (Worker p)
  pub cancelling : List String  -- paths that `cancel_by_path` has cancelled in the table only

-- Why `enqueue` returns an error.
pub data Refusal : Type 0 where
  shutting_down not_persisted already_exists dispatcher_closed : Refusal

module _ (p : Platform) where
  -- `TaskQueue::new`, before it resumes the tasks of the table.
  unfoldable pub new : String → ℕ → List (TaskRow p) → TaskQueue p
  new drive_id max_concurrent rows = record {
    drive_id = drive_id;
    max_concurrent = max max_concurrent 1;
    rows = rows;
    commands = [];
    permits = max max_concurrent 1;
    inflight = 0;
    shutting_down = false;
    progress = [];
    task_handles = [];
    task_paths = [];
    dispatcher = Dispatcher.receiving;
    workers = [];
    cancelling = [];
  }

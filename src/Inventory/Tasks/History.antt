-- ===== src/Inventory/Tasks/History.antt =====
-- The operations on the task table of inventory/db/tasks.rs in any order, and which rows stand for one
-- active task of a path.
use cloudreve_desktop.Prelude.Int.{ℤ}
use cloudreve_desktop.Prelude.{
  String, any, ◌≡◌, Bool, false, not, ◌&&◌, none, some, List, [], ◌∷◌, str_eq, All, Option,
  option_map,
}
use cloudreve_desktop.Inventory.Models.{is_active, NewTaskRecord, TaskUpdate, Platform, TaskStatus}
use cloudreve_desktop.Inventory.Tasks.Queries.{cancel_tasks_by_path, Like}
use cloudreve_desktop.Inventory.Tasks.{
  or_else, delete_task, update_task, active_statuses, insert_task_if_not_exist, has_id, eq_any,
  TaskRow,
}

unfoldable pub row_active : {p : Platform} → TaskRow p → Bool
row_active row = eq_any active_statuses row.status

-- Two active rows of one task.
unfoldable pub conflicts : {p : Platform} → TaskRow p → TaskRow p → Bool
conflicts a b =
    str_eq a.drive_id b.drive_id
    && str_eq a.task_type b.task_type
    && str_eq a.local_path b.local_path
    && row_active b
    && row_active a

unfoldable pub UniqueActive : {p : Platform} → List (TaskRow p) → Type 0
UniqueActive [] = Unit
UniqueActive (row ∷ rows) = (any (conflicts row) rows ≡ false) × UniqueActive rows

-- The operations on the table, each with its arguments.
pub data Operation (p : Platform) : Type 0 where
  insert : NewTaskRecord p → Operation p
  update : String → TaskUpdate p → ℤ → Operation p
  delete : String → Operation p
  cancel : Like → String → String → ℤ → Operation p

-- The rows after an operation; one that returns an error leaves them.
unfoldable pub run : {p : Platform} → Operation p → List (TaskRow p) → List (TaskRow p)
run {p = p} (insert task) rows =
    or_else
      (option_map (λ (r : Bool × List (TaskRow p)). r.1) (insert_task_if_not_exist p task rows))
      rows
run {p = p} (update task_id change now) rows = or_else (update_task p task_id change now rows) rows
run {p = p} (delete task_id) rows = delete_task p task_id rows
run {p = p} (cancel like drive_id path now) rows =
    (cancel_tasks_by_path p like drive_id path now rows).1

unfoldable pub activates : Option TaskStatus → Bool
activates none = false
activates (some status) = is_active status

-- The update would make a row active that is not.
unfoldable pub reactivates : {p : Platform} → String → TaskUpdate p → TaskRow p → Bool
reactivates {p = p} task_id change row =
    has_id p task_id row && activates change.status && not (row_active row)

-- An update makes no row active that is not.
unfoldable pub Keeps : {p : Platform} → Operation p → List (TaskRow p) → Type 0
Keeps (insert task) rows = Unit
Keeps (update task_id change now) rows = All (λ row. reactivates task_id change row ≡ false) rows
Keeps (delete task_id) rows = Unit
Keeps (cancel like drive_id path now) rows = Unit

-- The tables that a sequence of operations makes of the first.
pub data History {p : Platform} (first : List (TaskRow p)) : List (TaskRow p) → Type 0 where
  start : History first first
  step :
      {rows : List (TaskRow p)} (op : Operation p)
      → Keeps op rows
      → History first rows
      → History first (run op rows)

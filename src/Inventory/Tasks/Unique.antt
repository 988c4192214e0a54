-- ===== src/Inventory/Tasks/Unique.antt =====
-- What the operations on the task table keep: at most one pending or running task of a type for a
-- path of a drive.
use cloudreve_desktop.Inventory.Tasks.Conflicts.{
  UniqueActive-map, UniqueActive-filter_by, UniqueActive-snoc, any-conflicts-new, update_where-Tame,
  cancel_row-Tame, All-Tame, updated-Tame,
}
use cloudreve_desktop.Inventory.Tasks.History.{
  insert, update, delete, cancel, start, step, UniqueActive, Operation, run, reactivates, Keeps,
  History,
}
use cloudreve_desktop.Prelude.Int.{ℤ}
use cloudreve_desktop.Prelude.{
  String, any, ◌≡◌, Bool, false, none, some, List, All, refl, true, Option, if-rule, option_map,
  ◌>>=◌, not,
}
use cloudreve_desktop.Inventory.Models.{is_empty, NewTaskRecord, TaskUpdate, Platform}
use cloudreve_desktop.Inventory.Tasks.Queries.{cancel_row, cancel_tasks_by_path}
use cloudreve_desktop.Inventory.Tasks.{
  traverse_option, changeset_from_update, row_from_record, changeset_with, update_where, or_else,
  insert_row, apply_changeset, new_row, same_active_task, delete_task, update_task,
  insert_task_if_not_exist, has_id, TaskRow,
}

update-UniqueActive :
    {p : Platform} (task_id : String) (change : TaskUpdate p) (now : ℤ) (rows : List (TaskRow p))
    → All (λ row. reactivates task_id change row ≡ false) rows
    → UniqueActive rows
    → (state : Option (Option (Option String)))
    → UniqueActive (
        or_else
          ((state >>= λ s. some (changeset_with p change now s)) >>= λ c.
            some (update_where p (has_id p task_id) (apply_changeset p c) rows))
          rows)
unfolding update_where changeset_with
update-UniqueActive task_id change now rows k u none = u
update-UniqueActive task_id change now rows k u (some state) =
    UniqueActive-map _ rows (updated-Tame task_id change _ rows refl k) u

insert-UniqueActive :
    {p : Platform} (task : NewTaskRecord p) (rows : List (TaskRow p))
    → any (same_active_task p task) rows ≡ false
    → UniqueActive rows
    → (state : Option (Option String))
    → UniqueActive (
        or_else
          (option_map
            (λ (r : Bool × List (TaskRow p)). r.1)
            ((state >>= λ s. some (new_row p task s)) >>= λ row.
              insert_row p row rows >>= λ inserted. some (true, inserted)))
          rows)
unfolding insert_row new_row
insert-UniqueActive task rows h u none = u
insert-UniqueActive {p = p} task rows h u (some state) =
    if-rule
      (λ r. UniqueActive (
        or_else
          (option_map (λ (q : Bool × List (TaskRow p)). q.1)
            (r >>= λ inserted. some (true, inserted)))
          rows))
      (any (has_id p task.id) rows) (λ taken. u)
      (λ free.
        UniqueActive-snoc rows (new_row p task state) (any-conflicts-new task state rows h) u)

run-UniqueActive :
    {p : Platform} (op : Operation p) (rows : List (TaskRow p))
    → Keeps op rows
    → UniqueActive rows
    → UniqueActive (run op rows)
unfolding Keeps run insert_task_if_not_exist row_from_record update_task changeset_from_update
    delete_task cancel_tasks_by_path update_where
run-UniqueActive {p = p} (insert task) rows k u =
    if-rule (λ r. UniqueActive (or_else (option_map (λ (q : Bool × List (TaskRow p)). q.1) r) rows))
      (any (same_active_task p task) rows) (λ found. u)
      (λ h. insert-UniqueActive task rows h u (traverse_option p.to_string task.custom_state))
run-UniqueActive {p = p} (update task_id change now) rows k u =
    if-rule (λ r. UniqueActive (or_else r rows)) (is_empty p change) (λ empty. u)
      (λ h.
        update-UniqueActive task_id change now rows k u
          (traverse_option (traverse_option p.to_string) change.custom_state))
run-UniqueActive {p = p} (delete task_id) rows k u =
    UniqueActive-filter_by (λ row. not (has_id p task_id row)) rows u
run-UniqueActive {p = p} (cancel like drive_id path now) rows k u =
    UniqueActive-map _ rows
      (All-Tame _ rows
        (λ row. update_where-Tame _ (cancel_row p now) row (λ t. cancel_row-Tame now row)))
      u

-- However inserts, updates, deletions and cancellations by path follow each other from a table with
-- at most one active row of a type for a path of a drive, there is at most one, provided that no
-- update sets a row that has ended to pending or running.
pub History-UniqueActive :
    {p : Platform} {first rows : List (TaskRow p)}
    → History first rows
    → UniqueActive first
    → UniqueActive rows
History-UniqueActive start u = u
History-UniqueActive (step op keeps history) u =
    run-UniqueActive op _ keeps (History-UniqueActive history u)

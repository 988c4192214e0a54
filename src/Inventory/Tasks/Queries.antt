-- ===== src/Inventory/Tasks/Queries.antt =====
-- inventory/db/tasks.rs: the operations that take many rows. `ORDER BY` is an insertion sort that
-- leaves rows of one time in the table's order.
use cloudreve_desktop.Inventory.Tasks.{
  record_from_row, update_where, traverse, eq_any, active_statuses, TaskRow,
}
use cloudreve_desktop.Prelude.Int.{ℤ, ltb_ℤ}
use cloudreve_desktop.Prelude.{
  if◌then◌else◌, ◌>>=◌, take, filter_by, String, Bool, true, ◌&&◌, ◌||◌, Option, none, some, List,
  [], ◌∷◌, map, str_eq, ◌<>◌,
}
use cloudreve_desktop.Inventory.Models.{TaskRecord, status_as_str, Platform, TaskStatus}

-- `std::path::MAIN_SEPARATOR` of Windows.
unfoldable pub main_separator : String
main_separator = "\\"

-- A LIKE pattern and a text.
abbrev pub Like : Type 0
Like = String → String → Bool

abbrev pub some_accepts {ℓ} : {A : Type ℓ} → (A → Bool) → Option A → Bool
some_accepts test none = true
some_accepts test (some a) = test a

unfoldable pub finished_statuses : List String
finished_statuses =
    status_as_str TaskStatus.completed
    ∷ status_as_str TaskStatus.failed
    ∷ status_as_str TaskStatus.cancelled
    ∷ []

module _ {ℓ} {A : Type ℓ} (before : A → A → Bool) where
  unfoldable pub insert_sorted : A → List A → List A
  insert_sorted a [] = a ∷ []
  insert_sorted a (b ∷ bs) =
      let rest = insert_sorted a bs in if before b a then b ∷ rest else a ∷ b ∷ bs

  unfoldable pub order_by : List A → List A
  order_by [] = []
  order_by (a ∷ others) = insert_sorted a (order_by others)

module _ (p : Platform) where
  unfoldable pub list_tasks :
      Option String → Option (List TaskStatus) → List (TaskRow p) → Option (List (TaskRecord p))
  list_tasks drive_id statuses rows = traverse (record_from_row p) (
      order_by (λ a b. ltb_ℤ a.created_at b.created_at)
        (filter_by
          (λ (row : TaskRow p).
            some_accepts (λ drive. str_eq row.drive_id drive) drive_id
            && some_accepts (λ wanted. eq_any (map status_as_str wanted) row.status) statuses)
          rows))

  -- The filter of `cancel_tasks_by_path`.
  unfoldable pub matches_path : Like → String → String → TaskRow p → Bool
  matches_path like drive_id path row =
      str_eq row.drive_id drive_id
      && eq_any active_statuses row.status
      && (str_eq row.local_path path || like (path <> main_separator <> "%") row.local_path)

  unfoldable pub cancel_row : ℤ → TaskRow p → TaskRow p
  cancel_row now row = record row { status = status_as_str TaskStatus.cancelled; updated_at = now }

  unfoldable pub cancel_tasks_by_path :
      Like → String → String → ℤ → List (TaskRow p) → List String × List (TaskRow p)
  cancel_tasks_by_path like drive_id path now rows =
      let task_ids =
        map (λ (t : TaskRow p). t.id) (filter_by (matches_path like drive_id path) rows) in
      (task_ids, update_where p (λ row. eq_any task_ids row.id) (cancel_row now) rows)

  pub record RecentTasks : Type 0 where
    pub active : List (TaskRecord p)
    pub finished : List (TaskRecord p)

  unfoldable pub recent_with :
      Option String → List String → List (TaskRow p) → Option (List (TaskRecord p))
  recent_with drive_id statuses rows = traverse (record_from_row p) (
      take 25 (
        order_by (λ a b. ltb_ℤ b.updated_at a.updated_at)
          (filter_by
            (λ (row : TaskRow p).
              eq_any statuses row.status
              && some_accepts (λ drive. str_eq row.drive_id drive) drive_id)
            rows)))

  unfoldable pub query_recent_tasks : Option String → List (TaskRow p) → Option RecentTasks
  query_recent_tasks drive_id rows = do
    active ← recent_with drive_id active_statuses rows
    finished ← recent_with drive_id finished_statuses rows
    some (record { active = active; finished = finished })

-- ===== src/Inventory/Tasks.antt =====
-- inventory/db/tasks.rs: the operations on the table `task_queue`. The table is the list of its
-- rows; a query takes the rows that its filters accept. An operation returns an error where
-- serde_json does, where a row's status is not one of the known ones, and where an insert repeats a
-- primary key. The clock is an argument, `now`, and so is SQLite's operator LIKE, pattern first.
pub mod Queries
pub mod History
pub mod Conflicts
pub mod Unique
use cloudreve_desktop.Prelude.Int.{ℤ}
use cloudreve_desktop.Prelude.{
  String, Option, none, some, Bool, true, false, if◌then◌else◌, ◌>>=◌, filter_by, any, not, ◌&&◌,
  List, [], ◌∷◌, ◌++◌, map, str_eq, option_map, ◌≡◌, refl,
}
use cloudreve_desktop.Inventory.Models.{
  is_empty, status_from_str, TaskUpdate, TaskStatus, NewTaskRecord, status_as_str, Platform,
  TaskRecord,
}

pub record TaskRow (p : Platform) : Type 0 where
  pub id : String
  pub drive_id : String
  pub task_type : String
  pub local_path : String
  pub status : String
  pub progress : p.F64
  pub total_bytes : ℤ
  pub processed_bytes : ℤ
  pub priority : ℤ
  pub custom_state : Option String
  pub error : Option String
  pub created_at : ℤ
  pub updated_at : ℤ

pub record TaskChangeset (p : Platform) : Type 0 where
  pub status : Option String
  pub progress : Option p.F64
  pub total_bytes : Option ℤ
  pub processed_bytes : Option ℤ
  pub custom_state : Option (Option String)
  pub error : Option (Option String)
  pub updated_at : ℤ

-- `map(f).transpose()` of an Option of a fallible conversion.
abbrev pub traverse_option {ℓ κ} :
    {A : Type ℓ} {B : Type κ} → (A → Option B) → Option A → Option (Option B)
traverse_option f none = some none
traverse_option f (some a) = do b ← f a; some (some b)

-- What is written by one function and read back by the other is as it was.
pub traverse_option-read {ℓ κ} :
    {A : Type ℓ} {B : Type κ} (f : A → Option B) (g : B → Option A)
    (reads : (a : A) (b : B) → f a ≡ some b → g b ≡ some a) (o : Option A) (written : Option B)
    → traverse_option f o ≡ some written
    → traverse_option g written ≡ some o
traverse_option-read f g reads none none e = refl
traverse_option-read f g reads none (some b) e = absurd cc
traverse_option-read {B = B} f g reads (some a) written e = from_result (f a) written refl e
  where
    from_result :
        (result : Option B) (written : Option B)
        → f a ≡ result
        → (result >>= λ b. some (some b)) ≡ some written
        → traverse_option g written ≡ some (some a)
    from_result none written h e = absurd cc
    from_result (some b) none h e = absurd cc
    from_result (some b) (some r) h e = rw (reads a r cc) refl

-- `collect` into a Result.
abbrev pub traverse {ℓ κ} : {A : Type ℓ} {B : Type κ} → (A → Option B) → List A → Option (List B)
traverse f [] = some []
traverse f (a ∷ rest) = do b ← f a; bs ← traverse f rest; some (b ∷ bs)

-- A column of a changeset is left as it is where the changeset has `None`.
abbrev pub or_else {ℓ} : {A : Type ℓ} → Option A → A → A
or_else none a = a
or_else (some b) a = b

unfoldable pub active_statuses : List String
unfolding status_as_str
active_statuses = status_as_str TaskStatus.pending ∷ status_as_str TaskStatus.running ∷ []

-- `eq_any`.
unfoldable pub eq_any : List String → String → Bool
eq_any values s = any (λ v. str_eq v s) values

module _ (p : Platform) where
  unfoldable pub record_from_row : TaskRow p → Option (TaskRecord p)
  record_from_row row = do
    status ← status_from_str row.status
    custom_state ← traverse_option p.from_str row.custom_state
    some (record {
      id = row.id;
      drive_id = row.drive_id;
      task_type = row.task_type;
      local_path = row.local_path;
      status = status;
      progress = row.progress;
      total_bytes = row.total_bytes;
      processed_bytes = row.processed_bytes;
      priority = row.priority;
      custom_state = custom_state;
      error = row.error;
      created_at = row.created_at;
      updated_at = row.updated_at;
    })

  -- `NewTaskRow::try_from`; the table's rows have the columns of a new row.
  unfoldable pub new_row : NewTaskRecord p → Option String → TaskRow p
  new_row r custom_state = record {
    id = r.id;
    drive_id = r.drive_id;
    task_type = r.task_type;
    local_path = r.local_path;
    status = status_as_str r.status;
    progress = r.progress;
    total_bytes = r.total_bytes;
    processed_bytes = r.processed_bytes;
    priority = r.priority;
    custom_state = custom_state;
    error = r.error;
    created_at = r.created_at;
    updated_at = r.updated_at;
  }

  unfoldable pub row_from_record : NewTaskRecord p → Option (TaskRow p)
  row_from_record r = do
    custom_state ← traverse_option p.to_string r.custom_state
    some (new_row r custom_state)

  unfoldable pub changeset_with : TaskUpdate p → ℤ → Option (Option String) → TaskChangeset p
  changeset_with u now custom_state = record {
    status = option_map status_as_str u.status;
    progress = u.progress;
    total_bytes = u.total_bytes;
    processed_bytes = u.processed_bytes;
    custom_state = custom_state;
    error = u.error;
    updated_at = now;
  }

  unfoldable pub changeset_from_update : TaskUpdate p → ℤ → Option (TaskChangeset p)
  changeset_from_update u now = do
    custom_state ← traverse_option (traverse_option p.to_string) u.custom_state
    some (changeset_with u now custom_state)

  unfoldable pub apply_changeset : TaskChangeset p → TaskRow p → TaskRow p
  apply_changeset c row = record row {
    status = or_else c.status row.status;
    progress = or_else c.progress row.progress;
    total_bytes = or_else c.total_bytes row.total_bytes;
    processed_bytes = or_else c.processed_bytes row.processed_bytes;
    custom_state = or_else c.custom_state row.custom_state;
    error = or_else c.error row.error;
    updated_at = c.updated_at;
  }

  -- `UPDATE ... SET ... WHERE`.
  unfoldable pub update_where :
      (TaskRow p → Bool) → (TaskRow p → TaskRow p) → List (TaskRow p) → List (TaskRow p)
  update_where test change rows = map (λ row. if test row then change row else row) rows

  unfoldable pub has_id : String → TaskRow p → Bool
  has_id task_id row = str_eq row.id task_id

  unfoldable pub same_active_task : NewTaskRecord p → TaskRow p → Bool
  same_active_task task row =
      str_eq row.drive_id task.drive_id
      && str_eq row.task_type task.task_type
      && str_eq row.local_path task.local_path
      && eq_any active_statuses row.status

  -- The insert of a row, which SQLite refuses where the primary key is taken.
  unfoldable pub insert_row : TaskRow p → List (TaskRow p) → Option (List (TaskRow p))
  insert_row row rows = if any (has_id row.id) rows then none else some (rows ++ row ∷ [])

  unfoldable pub insert_task_if_not_exist :
      NewTaskRecord p → List (TaskRow p) → Option (Bool × List (TaskRow p))
  insert_task_if_not_exist task rows =
      if any (same_active_task task) rows
      then some (false, rows)
      else do row ← row_from_record task; inserted ← insert_row row rows; some (true, inserted)

  unfoldable pub update_task :
      String → TaskUpdate p → ℤ → List (TaskRow p) → Option (List (TaskRow p))
  update_task task_id update now rows = if is_empty p update then some rows else do
    changeset ← changeset_from_update update now
    some (update_where (has_id task_id) (apply_changeset changeset) rows)

  unfoldable pub delete_task : String → List (TaskRow p) → List (TaskRow p)
  delete_task task_id rows = filter_by (λ row. not (has_id task_id row)) rows

  unfoldable pub get_task_status : String → List (TaskRow p) → Option TaskStatus
  get_task_status task_id [] = none
  get_task_status task_id (row ∷ rows) =
      let rest = get_task_status task_id rows in
      if has_id task_id row then status_from_str row.status else rest

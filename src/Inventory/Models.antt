-- ===== src/Inventory/Models.antt =====
-- inventory/models.rs: the records of the task table. JSON values and floating-point numbers are
-- parameters, with serde_json's printer and parser. A clock reading is an argument, `now`.
use cloudreve_desktop.Prelude.Int.{ℤ, pos}
use cloudreve_desktop.Prelude.{
  String, Option, none, some, Bool, true, false, if◌then◌else◌, ◌&&◌, str_eq,
}

pub data TaskStatus : Type 0 where
  pending running completed failed cancelled : TaskStatus

unfoldable pub status_as_str : TaskStatus → String
status_as_str pending = "pending"
status_as_str running = "running"
status_as_str completed = "completed"
status_as_str failed = "failed"
status_as_str cancelled = "cancelled"

unfoldable pub status_from_str : String → Option TaskStatus
status_from_str value =
    if str_eq value "pending"
    then some TaskStatus.pending
    else if str_eq value "running"
    then some TaskStatus.running
    else if str_eq value "completed"
    then some TaskStatus.completed
    else if str_eq value "failed"
    then some TaskStatus.failed
    else if str_eq value "cancelled"
    then some TaskStatus.cancelled
    else none

unfoldable pub is_active : TaskStatus → Bool
is_active pending = true
is_active running = true
is_active completed = false
is_active failed = false
is_active cancelled = false

unfoldable pub is_running : TaskStatus → Bool
is_running pending = false
is_running running = true
is_running completed = false
is_running failed = false
is_running cancelled = false

-- serde_json's `Value`, its `to_string` and `from_str`, and f64 with the 0.0 that new records have.
pub record Platform : Type 1 where
  pub Value : Type 0
  pub to_string : Value → Option String
  pub from_str : String → Option Value
  pub F64 : Type 0
  pub f64_zero : F64

pub record TaskRecord (p : Platform) : Type 0 where
  pub id : String
  pub drive_id : String
  pub task_type : String
  pub local_path : String
  pub status : TaskStatus
  pub progress : p.F64
  pub total_bytes : ℤ
  pub processed_bytes : ℤ
  pub priority : ℤ
  pub custom_state : Option p.Value
  pub error : Option String
  pub created_at : ℤ
  pub updated_at : ℤ

pub record NewTaskRecord (p : Platform) : Type 0 where
  pub id : String
  pub drive_id : String
  pub task_type : String
  pub local_path : String
  pub status : TaskStatus
  pub progress : p.F64
  pub total_bytes : ℤ
  pub processed_bytes : ℤ
  pub priority : ℤ
  pub custom_state : Option p.Value
  pub error : Option String
  pub created_at : ℤ
  pub updated_at : ℤ

pub record TaskUpdate (p : Platform) : Type 0 where
  pub status : Option TaskStatus
  pub progress : Option p.F64
  pub total_bytes : Option ℤ
  pub processed_bytes : Option ℤ
  pub custom_state : Option (Option p.Value)
  pub error : Option (Option String)

abbrev pub is_none {ℓ} : {A : Type ℓ} → Option A → Bool
is_none none = true
is_none (some a) = false

module _ (p : Platform) where
  unfoldable pub new_task_record : String → String → String → String → ℤ → NewTaskRecord p
  new_task_record id drive_id task_type local_path now = record {
    id = id;
    drive_id = drive_id;
    task_type = task_type;
    local_path = local_path;
    status = TaskStatus.pending;
    progress = p.f64_zero;
    total_bytes = pos 0;
    processed_bytes = pos 0;
    priority = pos 0;
    custom_state = none;
    error = none;
    created_at = now;
    updated_at = now;
  }

  unfoldable pub with_totals : ℤ → ℤ → NewTaskRecord p → NewTaskRecord p
  with_totals total_bytes processed_bytes r = record r {
    total_bytes = total_bytes;
    processed_bytes = processed_bytes;
  }

  unfoldable pub with_priority : ℤ → NewTaskRecord p → NewTaskRecord p
  with_priority priority r = record r { priority = priority }

  unfoldable pub with_custom_state : p.Value → NewTaskRecord p → NewTaskRecord p
  with_custom_state state r = record r { custom_state = some state }

  -- `TaskUpdate::default()`.
  unfoldable pub no_update : TaskUpdate p
  no_update = record {
    status = none;
    progress = none;
    total_bytes = none;
    processed_bytes = none;
    custom_state = none;
    error = none;
  }

  unfoldable pub is_empty : TaskUpdate p → Bool
  is_empty u =
      is_none u.status
      && is_none u.progress
      && is_none u.total_bytes
      && is_none u.processed_bytes
      && is_none u.custom_state
      && is_none u.error

-- ===== src/Tasks/Types.antt =====
-- tasks/types.rs: the kinds of tasks and what a task carries. A path is its text, as its lossy
-- conversion gives it.
use cloudreve_desktop.Prelude.Int.{ℤ, pos}
use cloudreve_desktop.Prelude.{if◌then◌else◌, ℕ, String, Bool, false, Option, none, some, str_eq}
use cloudreve_desktop.Inventory.Models.{Platform}

pub data TaskKind : Type 0 where
  upload download : TaskKind

unfoldable pub kind_as_str : TaskKind → String
kind_as_str TaskKind.upload = "upload"
kind_as_str TaskKind.download = "download"

unfoldable pub kind_from_str : String → Option TaskKind
kind_from_str value =
    if str_eq value "upload"
    then some TaskKind.upload
    else if str_eq value "download"
    then some TaskKind.download
    else none

pub record TaskPayload (p : Platform) : Type 0 where
  pub task_id : Option String
  pub kind : TaskKind
  pub local_path : String
  pub priority : ℤ
  pub total_bytes : Option ℤ
  pub processed_bytes : Option ℤ
  pub custom_state : Option p.Value
  pub force_override : Bool

pub record TaskProgress (p : Platform) : Type 0 where
  pub task_id : String
  pub kind : TaskKind
  pub local_path : String
  pub progress : p.F64
  pub processed_bytes : Option ℤ
  pub total_bytes : Option ℤ
  pub speed_bytes_per_sec : ℕ
  pub eta_seconds : Option ℕ
  pub custom_state : Option p.Value

module _ (p : Platform) where
  unfoldable pub new_payload : TaskKind → String → TaskPayload p
  new_payload kind local_path = record {
    task_id = none;
    kind = kind;
    local_path = local_path;
    priority = pos 0;
    total_bytes = none;
    processed_bytes = none;
    custom_state = none;
    force_override = false;
  }

  unfoldable pub with_task_id : String → TaskPayload p → TaskPayload p
  with_task_id id t = record t { task_id = some id }

  unfoldable pub with_priority : ℤ → TaskPayload p → TaskPayload p
  with_priority priority t = record t { priority = priority }

  -- Processed before total, unlike the record's function of this name.
  unfoldable pub with_totals : ℤ → ℤ → TaskPayload p → TaskPayload p
  with_totals processed total t = record t {
    processed_bytes = some processed;
    total_bytes = some total;
  }

  unfoldable pub with_custom_state : p.Value → TaskPayload p → TaskPayload p
  with_custom_state state t = record t { custom_state = some state }

  unfoldable pub from_payload : String → TaskPayload p → TaskProgress p
  from_payload task_id payload = record {
    task_id = task_id;
    kind = payload.kind;
    local_path = payload.local_path;
    progress = p.f64_zero;
    processed_bytes = payload.processed_bytes;
    total_bytes = payload.total_bytes;
    speed_bytes_per_sec = 0;
    eta_seconds = none;
    custom_state = payload.custom_state;
  }

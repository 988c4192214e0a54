-- ===== src/Drive/SyncRun/Calls.antt =====
-- The calls of a synchronisation, their failures, and how drive/sync.rs collects errors.
use cloudreve_desktop.Prelude.{
  ◌≡◌, refl, String, ℕ, Bool, true, false, Option, none, some, List, ◌∷◌,
}
use cloudreve_desktop.Prelude.Int.{ℤ, pos, eqb_ℤ}
use cloudreve_desktop.Drive.Files.{FileMetadata, FileResponse, LocalFileInfo}
use cloudreve_desktop.Drive.Fingerprint.{Host}

-- An error, as far as the code looks into it, and `SyncAggregateError` with its entries.
mutual
  pub data Fault : Type 0 where
    api_error : (code : ℤ) → Fault
    not_found : Fault
    other : String → Fault
    aggregate : (context : String) → Faults → Fault

  pub data Faults : Type 0 where
    empty : Faults
    entry : String → Fault → Faults → Faults

-- `is_parent_not_exist_error`; an aggregate holds no server error in its chain of causes.
unfoldable pub is_parent_not_exist_error : Fault → Bool
is_parent_not_exist_error (Fault.api_error code) = eqb_ℤ code (pos 40016)
is_parent_not_exist_error Fault.not_found = false
is_parent_not_exist_error (Fault.other message) = false
is_parent_not_exist_error (Fault.aggregate context entries) = false

-- `err.kind() == io::ErrorKind::NotFound`
unfoldable pub is_not_found : Fault → Bool
is_not_found Fault.not_found = true
is_not_found _ = false

-- `SyncAggregateError::push`; the order of the entries is the order of the pushes.
unfoldable pub push_fault : String → Fault → Faults → Faults
push_fault path fault Faults.empty = Faults.entry path fault Faults.empty
push_fault path fault (Faults.entry p f rest) = Faults.entry p f (push_fault path fault rest)

abbrev pub is_empty : Faults → Bool
is_empty Faults.empty = true
is_empty (Faults.entry path fault rest) = false

-- `SyncAggregateError::into_result`: `none` is `Ok(())`.
unfoldable pub into_result : String → Faults → Option Fault
into_result context Faults.empty = none
into_result context (Faults.entry path fault rest) =
    some (Fault.aggregate context (Faults.entry path fault rest))

pub data Call : Type 0 where
  locate locate_directory read_local read_inventory read_dir : (path : String) → Call
  list_presented_children : (uri : String) → Call
  parse_drive_id : Call
  commit : (path : String) → FileResponse → (invalidate_all_range : Bool) → Call
  upsert_conflicted : (path : String) → FileResponse → Call
  enqueue_upload enqueue_download cancel_by_path : (path : String) → Call
  prepare_local_placeholder_deletion delete_placeholder : (path : String) → Call
  rename : (original renamed : String) → Call
  update_sync_error_state : (path : String) → Call

-- The calls so far with their outcomes (`none` is success), the newest first.
abbrev pub Log : Type 0
Log = List (Call × Option Fault)

-- What the calls answer, after a log: whether a call fails, and what a successful one returns. The
-- iteration orders of the hash map and of the hash set are answers too. `remote_uri` is what
-- `local_path_to_cr_uri` gives of a path, `local_path` the path below the sync root that
-- `remote_path_to_local_relative_path` gives of a server path, `none` where it fails.
pub record Environment : Type 0 where
  pub sync_path : String
  pub remote_base_is_uri : Bool
  pub host : Log → Host
  pub attempt : Log → Call → Option Fault
  pub parent : String → Option String
  pub remote_uri : String → String
  pub local_path : String → Option String
  pub local_info : Log → String → LocalFileInfo
  pub inventory_row : Log → String → Option FileMetadata
  pub entries : Log → String → List String
  pub presented : Log → String → List (String × FileResponse)
  pub exists : Log → String → Bool
  pub count : Log → String → Option ℕ
  pub order : Log → List String → List String
  pub order_groups : Log → List (String × List String) → List (String × List String)

-- `aggregate_error`, and the log.
pub record Progress : Type 0 where
  pub errors : Faults
  pub log : Log

-- The log after a call.
unfoldable pub after : Environment → Call → Log → Log
after env call log = (call, env.attempt log call) ∷ log

-- What follows a call that succeeded or failed.
abbrev pub on_outcome {ℓ} : {A : Type ℓ} → Option Fault → A → (Fault → A) → A
on_outcome none succeeded failed = succeeded
on_outcome (some fault) succeeded failed = failed fault

pub on_outcome-rule {ℓ κ} :
    {A : Type ℓ} (P : A → Type κ) (outcome : Option Fault) {succeeded : A} {failed : Fault → A}
    → (outcome ≡ none → P succeeded)
    → ((fault : Fault) → outcome ≡ some fault → P (failed fault))
    → P (on_outcome outcome succeeded failed)
on_outcome-rule P none s f = s refl
on_outcome-rule P (some fault) s f = f fault refl

unfoldable pub start : Log → Progress
start log = record { errors = Faults.empty; log = log }

unfoldable pub push_error : String → Option Fault → Progress → Progress
push_error path none p = p
push_error path (some fault) p = record p { errors = push_fault path fault p.errors }

-- A call whose error is pushed under a path, and one whose error is dropped.
unfoldable pub reported : Environment → String → Call → Progress → Progress
unfolding after push_error
reported env path call p =
    push_error path (env.attempt p.log call) (record p { log = after env call p.log })

unfoldable pub ignored : Environment → Call → Progress → Progress
unfolding after
ignored env call p = record p { log = after env call p.log }

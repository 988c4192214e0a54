-- ===== src/Tests/SyncRuns.antt =====
-- A synchronisation of a small tree: a directory below the sync root, and a file in it that is newer on
-- the server and pinned.
use cloudreve_desktop.Drive.SyncPlan.FilePlan.{base_fingerprint, plan_file_actions}
use cloudreve_desktop.Drive.Changes.{
  fingerprints_equal, local_has_changes, remote_change, unwrap_or,
}
use cloudreve_desktop.Prelude.{
  if◌then◌else◌, if-rule, All, ℕ, ◌<◌, String, ◌≡◌, Bool, true, false, Option, none, some, List, [],
  ◌∷◌, str_eq, eq_iff, arith, refl,
}
use cloudreve_desktop.Prelude.Int.{pos, wrap_i64}
use cloudreve_desktop.Dict.{lookup, insert, string_eq}
use cloudreve_desktop.Drive.Files.{
  system_time_to_unix_millis, in_sync, is_placeholder, is_folder_populated, is_folder, FileMetadata,
  FileResponse, LocalFileInfo, PinState,
}
use cloudreve_desktop.Drive.Fingerprint.{metadata_hash_fingerprint, Host}
use cloudreve_desktop.Drive.SyncPlan.Model.{maybe_enqueue_walk_for_directory, SyncMode}
use cloudreve_desktop.Drive.SyncPlan.Build.{build_sync_plan}
use cloudreve_desktop.Drive.SyncRun.Calls.{ignored, reported, Fault, Log, Call, Environment}
use cloudreve_desktop.Drive.SyncRun.Gather.{key, children_below, is_parent}
use cloudreve_desktop.Drive.SyncRun.Group.{sync_paths}
use cloudreve_desktop.Drive.SyncRun.Lower.{IsFinite}
use cloudreve_desktop.Drive.SyncRun.Ends.{sync_paths-ends}
use cloudreve_desktop.Drive.SyncRun.Errors.{clean, succeeded}
use cloudreve_desktop.Drive.SyncRun.Honest.{sync_paths-reports}
use cloudreve_desktop.Drive.SyncRun.Seen.{Careful}
use cloudreve_desktop.Drive.SyncRun.Careful.{sync_paths-Careful}

abbrev host : Host
host = record {
  clean_hash = λ s. s;
  all_hex_digits = λ s. true;
  clean_key = λ s. s;
  byte_length = λ s. 32;
  eq_ignore_ascii_case = str_eq;
  parse_rfc3339_timestamp = λ s. some (pos 200);
  calculate_file_hash = λ path algorithm. none;
  generate_conflict_path = λ path. "__conflict__";
  is_ignored = λ path. false;
}

abbrev remote : Bool → FileResponse
remote is_folder = record {
  file_type = if is_folder then pos 1 else pos 0;
  updated_at = "2026-01-01T00:00:00Z";
  size = pos 3;
  metadata = none;
  shared = none;
  primary_entity = some "v2";
}

abbrev local : Bool → LocalFileInfo
local is_directory = record {
  exists = true;
  is_directory = is_directory;
  file_size = some 3;
  last_modified = some (pos 1000);
  placeholder_state =
      if is_directory
      then none
      else some (record { is_placeholder = true; in_sync = true; partial_on_disk = false });
  pin_state = PinState.pinned;
}

abbrev row : FileMetadata
row = record {
  updated_at = pos 100;
  etag = "v1";
  metadata = [];
  props = none;
  shared = false;
  conflict_state = none;
  local_updated_at = some (pos 1000);
  local_size = some (pos 3);
}

abbrev is_dir : String → Bool
is_dir path = str_eq path "/d"

abbrev child_of : String → List String
child_of path = if str_eq path "/" then "/d" ∷ [] else if str_eq path "/d" then "/d/f" ∷ [] else []

abbrev listed : String → List (String × FileResponse)
listed path =
    if str_eq path "/"
    then ("/d", remote true) ∷ []
    else if str_eq path "/d"
    then ("/d/f", remote false) ∷ []
    else []

abbrev parent_of : String → Option String
parent_of path =
    if str_eq path "/d" then some "/" else if str_eq path "/d/f" then some "/d" else none

abbrev height : String → ℕ
height path = if str_eq path "/" then 2 else if str_eq path "/d" then 1 else 0

abbrev env : Environment
env = record {
  sync_path = "/";
  remote_base_is_uri = true;
  host = λ log. host;
  attempt = λ log call. none;
  parent = parent_of;
  remote_uri = λ path. path;
  local_path = λ uri. some uri;
  local_info = λ log path. local (is_dir path);
  inventory_row = λ log path. some row;
  entries = λ log path. child_of path;
  presented = λ log uri. listed uri;
  exists = λ log path. true;
  count = λ log path. some 0;
  order = λ log paths. paths;
  order_groups = λ log groups. groups;
}

child_of-lower :
    (directory : String) → All (λ child. height child < height directory) (child_of directory)
child_of-lower directory =
    if-rule (λ xs. All (λ child. height child < height directory) xs) (str_eq directory "/")
      (λ root. rw root (omega arith, tt))
      (λ deep. rw deep (
        if-rule (λ xs. All (λ child. height child < (if str_eq directory "/d" then 1 else 0)) xs)
          (str_eq directory "/d") (λ d. rw d (omega arith, tt)) (λ leaf. tt)))

listed-lower :
    (directory : String)
    → All
        (λ file. height (key file) < height directory)
        (children_below env directory (listed directory))
unfolding children_below is_parent
listed-lower directory =
    if-rule
      (λ xs. All (λ file. height (key file) < height directory) (children_below env directory xs))
      (str_eq directory "/") (λ root. rw ((eq_iff directory "/").0 root) (omega arith, tt))
      (λ deep.
        if-rule
          (λ xs.
            All (λ file. height (key file) < height directory) (children_below env directory xs))
          (str_eq directory "/d") (λ d. rw ((eq_iff directory "/d").0 d) (omega arith, tt))
          (λ leaf. tt))

finite : IsFinite env height
finite = record {
  local_lower = λ log directory. child_of-lower directory;
  remote_lower = λ log directory. listed-lower directory;
  order_holds = λ log paths test h. h;
  order_groups_holds = λ log groups test h. h;
}

sync_paths-ends_example :
    (ended : Option Fault × Log) × (sync_paths env 3 ("/" ∷ []) SyncMode.full_hierarchy []
      ≡ some ended)
sync_paths-ends_example =
    sync_paths-ends env height finite 3 ("/" ∷ []) SyncMode.full_hierarchy [] (omega arith, tt)

-- The calls of that run, the newest first.
abbrev run_log : Log
run_log =
    (Call.enqueue_download "/d/f", none)
    ∷ ((Call.cancel_by_path "/d/f", none)
        ∷ ((Call.parse_drive_id, none)
            ∷ ((Call.read_inventory "/d/f", none)
                ∷ ((Call.read_local "/d/f", none)
                    ∷ ((Call.list_presented_children "/d", none)
                        ∷ ((Call.locate_directory "/d", none)
                            ∷ ((Call.read_dir "/d", none)
                                ∷ ((Call.commit "/d" (remote true) false, none)
                                    ∷ ((Call.parse_drive_id, none)
                                        ∷ ((Call.read_inventory "/d", none)
                                            ∷ ((Call.read_local "/d", none)
                                                ∷ ((Call.list_presented_children "/", none)
                                                    ∷ ((Call.locate_directory "/", none)
                                                        ∷ ((Call.read_dir "/", none)
                                                            ∷ []))))))))))))))

sync_paths_run : sync_paths env 3 ("/" ∷ []) SyncMode.full_hierarchy [] ≡ some (none, run_log)
unfolding sync_paths build_sync_plan lookup insert unwrap_or is_folder
    maybe_enqueue_walk_for_directory is_folder_populated is_placeholder remote_change
    plan_file_actions local_has_changes in_sync wrap_i64 system_time_to_unix_millis
    fingerprints_equal base_fingerprint metadata_hash_fingerprint reported ignored
sync_paths_run = refl

sync_paths-reports_example : succeeded none ≡ clean run_log
sync_paths-reports_example =
    sync_paths-reports env 3 ("/" ∷ []) SyncMode.full_hierarchy none run_log sync_paths_run

sync_paths-Careful_example : Careful env run_log
sync_paths-Careful_example =
    sync_paths-Careful env 3 ("/" ∷ []) SyncMode.full_hierarchy none run_log sync_paths_run

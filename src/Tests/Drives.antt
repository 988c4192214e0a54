-- ===== src/Tests/Drives.antt =====
-- The planning of a synchronisation, the event blocker and the reconnection delays at concrete
-- inputs.
use cloudreve_desktop.Drive.SyncPlan.Asked.{walk_due}
use cloudreve_desktop.Prelude.{
  replicate, All, ℕ, ◌^◌, min, String, ◌≡◌, refl, ◌↔◌, Bool, true, false, none, some, List, [], ◌∷◌,
  ◌++◌, str_eq, ◌-◌,
}
use cloudreve_desktop.Prelude.Int.{wrap_i64, pos}
use cloudreve_desktop.Drive.Files.{
  system_time_to_unix_millis, FileMetadata, FileResponse, LocalFileInfo, PinState, is_placeholder,
  in_sync, partial_on_disk, is_folder_populated, is_folder, missing, is_some,
}
use cloudreve_desktop.Drive.Fingerprint.{
  Host, metadata_hash_fingerprint, remote_file_hash_fingerprint,
}
use cloudreve_desktop.Drive.Changes.{
  RemoteChange, local_has_changes, local_snapshot_differs, remote_change, fingerprints_equal,
  unwrap_or,
}
use cloudreve_desktop.Drive.Changes.Detection.{Agrees, remote_change-unchanged}
use cloudreve_desktop.Drive.SyncPlan.Walked.{Walks, build_sync_plan-Walks}
use cloudreve_desktop.Drive.SyncPlan.Model.{SyncMode, SyncAction, SyncPlan, UploadReason}
use cloudreve_desktop.Drive.SyncPlan.FilePlan.{
  plan_file_actions, plan_local_unchanged, plan_both_changed, is_pinned, is_conflicting,
  base_fingerprint,
}
use cloudreve_desktop.Drive.SyncPlan.Entry.{
  plan_entry_actions, plan_entry_with_remote_and_local, plan_entry_with_local_only, plan_own_local,
}
use cloudreve_desktop.Drive.SyncPlan.Build.{
  Entries, build_sync_plan, plan_paths, plan_path, decide, decide_existing_local_remote_file,
  record_decision, marks_conflict,
}
use cloudreve_desktop.Drive.SyncPlan.Safety.{
  Stands, Resolves, build_sync_plan-keeps, plan_file_actions-changed,
}
use cloudreve_desktop.Drive.EventBlocker.{
  key, EventKind, EventBlocker, register, register_once, should_block, take_one, filter_events,
  create_kind, normalize, new, clear, len, is_empty,
}
use cloudreve_desktop.Dict.{insert, remove, lookup, string_eq}
use cloudreve_desktop.Drive.EventBlocker.Budget.{
  checks_exact, occurrences, checks, hits_of, Check, budget,
}
use cloudreve_desktop.Drive.EventBlocker.Filter.{kept_events, filter_events-kept}
use cloudreve_desktop.Drive.Backoff.{BackoffState, ListenResult, next_delay, process_remote_events}
use cloudreve_desktop.Drive.Backoff.Delays.{delay-after_connected}

abbrev host : Host
host = record {
  clean_hash = λ s. s;
  all_hex_digits = λ s. true;
  clean_key = λ s. s;
  byte_length = λ s. 32;
  eq_ignore_ascii_case = str_eq;
  parse_rfc3339_timestamp = λ s. none;
  calculate_file_hash = λ path algorithm. some "ab";
  generate_conflict_path = λ path. "__conflict__";
  is_ignored = λ path. str_eq path "C:/ignored";
}

abbrev remote : FileResponse
remote = record {
  file_type = pos 0;
  updated_at = "2026-01-01T00:00:00Z";
  size = pos 3;
  metadata = none;
  shared = none;
  primary_entity = some "v2";
}

abbrev local_with : Bool → LocalFileInfo
local_with in_sync = record {
  exists = true;
  is_directory = false;
  file_size = some 3;
  last_modified = some (pos 1000);
  placeholder_state =
      some (record { is_placeholder = true; in_sync = in_sync; partial_on_disk = false });
  pin_state = PinState.pinned;
}

abbrev plain_directory : LocalFileInfo
plain_directory = record {
  exists = true;
  is_directory = true;
  file_size = none;
  last_modified = none;
  placeholder_state = none;
  pin_state = PinState.unspecified;
}

abbrev row : FileMetadata
row = record {
  updated_at = pos 100;
  etag = "v1";
  metadata = [];
  props = none;
  shared = false;
  conflict_state = none;
  local_updated_at = some (pos 1000);
  local_size = some (pos 3);
}

abbrev entries : Entries
entries = record {
  remote_files = ("C:/a", remote) ∷ (("C:/b", remote) ∷ []);
  local_files =
      ("C:/a", local_with true) ∷ (("C:/b", local_with false) ∷ (("C:/d", plain_directory) ∷ []));
  inventory_entries = ("C:/a", row) ∷ (("C:/b", row) ∷ []);
}

abbrev paths : List String
paths = "C:/a" ∷ "C:/b" ∷ "C:/d" ∷ "C:/ignored" ∷ []

abbrev empty_plan : SyncPlan
empty_plan = record { actions = []; walk_requests = [] }

build_sync_plan-keeps_example :
    All (Stands host entries) (build_sync_plan host SyncMode.full_hierarchy paths entries).actions
build_sync_plan-keeps_example = build_sync_plan-keeps host SyncMode.full_hierarchy entries paths

-- The server has the directory too.
abbrev with_directory : Entries
with_directory = record entries {
  remote_files = ("C:/d", record remote { file_type = pos 1 }) ∷ entries.remote_files;
}

build_sync_plan-Walks_example :
    Walks host SyncMode.path_and_first_layer with_directory paths
      (build_sync_plan host SyncMode.path_and_first_layer paths with_directory).walk_requests
build_sync_plan-Walks_example =
    build_sync_plan-Walks host SyncMode.path_and_first_layer paths with_directory

is_walked : walk_due host SyncMode.path_and_first_layer with_directory "C:/d" ≡ true
unfolding is_folder is_placeholder lookup unwrap_or is_folder_populated
is_walked = refl

changed_lem : local_has_changes (local_with false) (some row) ≡ true
unfolding local_has_changes is_placeholder in_sync
changed_lem = refl

plan_file_actions-changed_example :
    Resolves host "C:/b" remote
      (local_with false)
      (some row)
      empty_plan
      (plan_file_actions host "C:/b" remote (local_with false) (some row) empty_plan)
plan_file_actions-changed_example =
    plan_file_actions-changed host "C:/b" remote (local_with false) (some row) empty_plan
      changed_lem

remote_change-unchanged_example :
    (remote_change host remote (some row) ≡ RemoteChange.unchanged) ↔ Agrees host remote row
remote_change-unchanged_example = remote_change-unchanged host remote row

abbrev blocker : EventBlocker
blocker = record { blocked = (record { kind = create_kind; path = "C:/a" }, 2) ∷ [] }

abbrev created : EventKind ℕ
created = EventKind.create 0

abbrev arrivals : List (Check ℕ)
arrivals = (created, "C:/a") ∷ ((created, "C:/a") ∷ ((created, "C:/a") ∷ []))

checks_exact_example :
    (hits_of (key created "C:/a") arrivals (checks blocker arrivals).0
      ≡ min (budget blocker (key created "C:/a")) (occurrences (key created "C:/a") arrivals))
    × (budget (checks blocker arrivals).1 (key created "C:/a")
        ≡ budget blocker (key created "C:/a") - occurrences (key created "C:/a") arrivals)
checks_exact_example = checks_exact (key created "C:/a") arrivals blocker

filter_events-kept_example :
    (filter_events (λ (event : List String). event) blocker (("C:/x" ∷ "C:/a" ∷ []) ∷ []) created).0
    ≡ kept_events created
        (λ (event : List String). event)
        (budget blocker)
        (("C:/x" ∷ "C:/a" ∷ []) ∷ [])
filter_events-kept_example =
    filter_events-kept created (λ (event : List String). event) (("C:/x" ∷ "C:/a" ∷ []) ∷ [])
      blocker

abbrev results : List ListenResult
results = ListenResult.error false ∷ ListenResult.stream_ended ∷ ListenResult.error true ∷ []

abbrev backoff : BackoffState
backoff = record { retry_count = 0; current_delay = 4 }

delay-after_connected_example :
    (next_delay
      (process_remote_events backoff
        (results ++ ListenResult.error true ∷ replicate 3 (ListenResult.error false))).1).0
    ≡ min (2 ^ 4) 32
delay-after_connected_example = delay-after_connected backoff results 3

-- An event that was registered once is blocked once; clearing forgets it.
register_once_test :
    ((should_block (register_once new created "C:/a") created "C:/a").0 ≡ true)
    × (is_empty (should_block (register_once new created "C:/a") created "C:/a").1 ≡ true)
    × (is_empty (clear (register_once new created "C:/a")) ≡ true)
unfolding register_once register should_block take_one is_empty len clear new insert remove lookup
    normalize
register_once_test = (refl, refl, refl)

-- The plan of the four paths: the unchanged file is downloaded, the changed one is uploaded, the plain
-- directory is deleted, the ignored path is left alone.
build_sync_plan_test :
    (build_sync_plan host SyncMode.full_hierarchy paths entries).actions
    ≡ SyncAction.queue_download "C:/a" remote
      ∷ SyncAction.queue_upload "C:/b" UploadReason.remote_mismatch
      ∷ SyncAction.delete_local_and_inventory "C:/d" false
      ∷ []
unfolding wrap_i64 system_time_to_unix_millis build_sync_plan plan_paths plan_path decide
    decide_existing_local_remote_file record_decision marks_conflict plan_entry_actions
    plan_entry_with_remote_and_local plan_entry_with_local_only plan_own_local plan_file_actions
    plan_local_unchanged plan_both_changed is_pinned is_conflicting base_fingerprint
    fingerprints_equal local_has_changes remote_change is_placeholder in_sync partial_on_disk
    is_folder_populated is_folder missing remote_file_hash_fingerprint metadata_hash_fingerprint
    local_snapshot_differs is_some unwrap_or lookup
build_sync_plan_test = refl

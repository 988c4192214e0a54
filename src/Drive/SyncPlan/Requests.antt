-- ===== src/Drive/SyncPlan/Requests.antt =====
-- The walks that a plan requests. What pushing an action and inserting a request keep, the whole
-- planning keeps.
use cloudreve_desktop.Prelude.{
  if-rule, if_not-rule, any, All, String, ◌≡◌, Bool, true, false, not, ◌&&◌, Option, none, some,
  List, [], ◌∷◌, ◌++◌, str_eq, Bool-cases, refl, inl, inr, any-false,
}
use cloudreve_desktop.Dict.{lookup, string_eq}
use cloudreve_desktop.Drive.Files.{
  FileMetadata, FileResponse, LocalFileInfo, missing, is_placeholder, partial_on_disk,
  is_folder_populated, is_folder, is_received_item,
}
use cloudreve_desktop.Drive.Fingerprint.{Host, FileHashFingerprint}
use cloudreve_desktop.Drive.Changes.{
  RemoteChange, bool_eq, local_has_changes, remote_change, unwrap_or,
}
use cloudreve_desktop.Drive.SyncPlan.Model.{
  SyncMode, SyncAction, WalkReason, WalkTiming, WalkRequest, SyncPlan,
  ExistingRemoteLocalFileDecision, push, insert_walk_request, mode_eq, next_child_mode,
  maybe_enqueue_walk_for_directory,
}
use cloudreve_desktop.Drive.SyncPlan.FilePlan.{
  hash_matches, is_conflicting, is_unchanged, is_pinned, plan_local_unchanged, plan_both_changed,
  plan_file_actions,
}
use cloudreve_desktop.Drive.SyncPlan.Entry.{
  plan_mismatch, plan_entry_with_remote_and_local, plan_own_local, plan_received,
  should_preserve_unavailable_received_item, plan_entry_with_local_only, plan_entry_actions,
}
use cloudreve_desktop.Drive.SyncPlan.Build.{
  Entries, record_decision, plan_path, plan_paths, build_sync_plan,
}
use cloudreve_desktop.Drive.SyncPlan.Content.{All-snoc}
use cloudreve_desktop.Drive.SyncPlan.Walks.{maybe_enqueue_walk-cases}

module _ (host : Host) (mode : SyncMode) (Q : String → Type 0) (P : SyncPlan → Type 0)
    (pushes : (a : SyncAction) (plan : SyncPlan) → P plan → P (push a plan))
    (walks : (path : String) (reason : WalkReason) (timing : WalkTiming) (plan : SyncPlan)
      → Q path
      → P plan
      → P (insert_walk_request path (next_child_mode mode) reason timing plan)) where
  walk_keeps :
      (path : String) (local : LocalFileInfo) (force_diff at_once : Bool) (plan : SyncPlan)
      → Q path
      → P plan
      → P (maybe_enqueue_walk_for_directory path mode local force_diff at_once plan)
  walk_keeps path local force_diff at_once plan q p =
      maybe_enqueue_walk-cases path mode local force_diff at_once plan P p
        (λ reason timing. walks path reason timing plan q p)

  unchanged_keeps :
      (path : String) (remote : FileResponse) (local : LocalFileInfo) (state : RemoteChange)
      (identical : Bool) (plan : SyncPlan)
      → P plan
      → P (plan_local_unchanged path remote local state identical plan)
  unfolding plan_local_unchanged
  unchanged_keeps path remote local RemoteChange.unchanged identical plan p = p
  unchanged_keeps path remote local RemoteChange.older identical plan p =
      if-rule P identical (λ same. pushes _ plan p) (λ other. pushes _ plan p)
  unchanged_keeps path remote local RemoteChange.newer identical plan p =
      if-rule P identical (λ same. pushes _ plan p)
        (λ other.
          if-rule P (is_pinned local.pin_state) (λ pinned. pushes _ plan p)
            (λ free. pushes _ plan p))

  both_changed_keeps :
      (path : String) (remote : FileResponse) (local : LocalFileInfo)
      (fingerprint : Option FileHashFingerprint) (plan : SyncPlan)
      → P plan
      → P (plan_both_changed host path remote local fingerprint plan)
  unfolding plan_both_changed
  both_changed_keeps path remote local none plan p = pushes _ plan p
  both_changed_keeps path remote local (some fingerprint) plan p =
      if-rule P (not (partial_on_disk local) && hash_matches host path fingerprint)
        (λ same. pushes _ plan p) (λ other. pushes _ plan p)

  pub file_keeps :
      (path : String) (remote : FileResponse) (local : LocalFileInfo)
      (inventory : Option FileMetadata) (plan : SyncPlan)
      → P plan
      → P (plan_file_actions host path remote local inventory plan)
  unfolding plan_file_actions
  file_keeps path remote local inventory plan p =
      if_not-rule P (local_has_changes local inventory)
        (λ still. unchanged_keeps path remote local _ _ plan p)
        (λ changed.
          if-rule P (is_unchanged (remote_change host remote inventory))
            (λ same. if-rule P (is_conflicting inventory) (λ waits. p) (λ free. pushes _ plan p))
            (λ moved.
              if-rule P (is_conflicting inventory) (λ waits. p)
                (λ free. both_changed_keeps path remote local _ plan p)))

  pub mismatch_keeps :
      (path : String) (remote : FileResponse) (local : LocalFileInfo) (plan : SyncPlan)
      → P plan
      → P (plan_mismatch host path remote local plan)
  unfolding plan_mismatch
  mismatch_keeps path remote local plan p = pushes _ _ (
      if-rule P (is_placeholder local && partial_on_disk local) (λ partial. pushes _ plan p)
        (λ whole. pushes _ plan p))

  both_sides_keeps :
      (path : String) (remote : FileResponse) (local : LocalFileInfo)
      (inventory : Option FileMetadata) (plan : SyncPlan)
      → Q path
      → P plan
      → P (plan_entry_with_remote_and_local host path mode remote local inventory plan)
  unfolding plan_entry_with_remote_and_local
  both_sides_keeps path remote local inventory plan q p =
      if_not-rule P (bool_eq local.is_directory (is_folder remote))
        (λ other. mismatch_keeps path remote local plan p)
        (λ same.
          if-rule P (is_folder remote)
            (λ dir. walk_keeps path local false false _ q (
              if-rule P (is_unchanged (remote_change host remote inventory)) (λ still. p)
                (λ moved. pushes _ plan p)))
            (λ file. file_keeps path remote local inventory plan p))

  own_keeps :
      (path : String) (local : LocalFileInfo) (inventory : Option FileMetadata) (plan : SyncPlan)
      → Q path
      → P plan
      → P (plan_own_local path mode local inventory plan)
  unfolding plan_own_local
  own_keeps path local inventory plan q p =
      if-rule P local.is_directory
        (λ dir.
          if_not-rule P (is_folder_populated local) (λ empty. pushes _ plan p)
            (λ hydrated. pushes _ _ (pushes _ _ (walk_keeps path local true _ plan q p))))
        (λ file.
          if_not-rule P (local_has_changes local inventory) (λ still. pushes _ plan p)
            (λ changed. pushes _ plan p))

  pub received_keeps :
      (path : String) (local : LocalFileInfo) (entry : FileMetadata) (plan : SyncPlan)
      → P plan
      → P (plan_received path local entry plan)
  unfolding plan_received
  received_keeps path local entry plan p =
      if-rule P (should_preserve_unavailable_received_item local entry) (λ kept. pushes _ plan p)
        (λ lost. pushes _ plan p)

  local_only_keeps :
      (path : String) (local : LocalFileInfo) (inventory : Option FileMetadata) (plan : SyncPlan)
      → Q path
      → P plan
      → P (plan_entry_with_local_only path mode local inventory plan)
  unfolding plan_entry_with_local_only
  local_only_keeps path local none plan q p =
      if-rule P local.exists (λ here. own_keeps path local none plan q p) (λ gone. p)
  local_only_keeps path local (some entry) plan q p =
      if-rule P local.exists
        (λ here.
          if-rule P (is_received_item entry) (λ received. received_keeps path local entry plan p)
            (λ own. own_keeps path local (some entry) plan q p))
        (λ gone. p)

  entry_keeps :
      (path : String) (remote : Option FileResponse) (local : LocalFileInfo)
      (inventory : Option FileMetadata) (plan : SyncPlan)
      → Q path
      → P plan
      → P (plan_entry_actions host path mode remote local inventory plan)
  unfolding plan_entry_actions
  entry_keeps path (some remote) local inventory plan q p =
      if-rule P local.exists (λ here. both_sides_keeps path remote local inventory plan q p)
        (λ gone. pushes _ plan p)
  entry_keeps path none local inventory plan q p =
      if-rule P local.exists (λ here. local_only_keeps path local inventory plan q p) (λ gone. p)

  decision_keeps :
      (path : String) (decision : Option (ExistingRemoteLocalFileDecision × FileResponse))
      (plan planned : SyncPlan)
      → P plan
      → P planned
      → P (record_decision path decision plan planned)
  unfolding record_decision
  decision_keeps path none plan planned p q = q
  decision_keeps path (some (decision, remote)) plan planned p q = pushes _ plan p

  paths_keep :
      (entries : Entries) (paths : List String) (plan : SyncPlan)
      → All Q paths
      → P plan
      → P (plan_paths host mode entries paths plan)
  unfolding plan_paths plan_path
  paths_keep entries [] plan q p = p
  paths_keep entries (path ∷ paths) plan (here, later) p =
      paths_keep entries paths (plan_path host mode entries path plan) later (
        if-rule P (host.is_ignored path) (λ ignored. p)
          (λ shown. decision_keeps path _ plan _ p (
            entry_keeps path (lookup path entries.remote_files)
              (unwrap_or (lookup path entries.local_files) missing)
              (lookup path entries.inventory_entries) plan here p)))

-- Two requests for the same walk.
abbrev same_walk : WalkRequest → WalkRequest → Bool
same_walk r s = str_eq r.path s.path && mode_eq r.mode s.mode

-- No request repeats an earlier one.
abbrev pub Distinct : List WalkRequest → Type 0
Distinct [] = Unit
Distinct (r ∷ rs) = All (λ s. same_walk r s ≡ false) rs × Distinct rs

-- The requests are for walks in one mode, and none repeats another.
abbrev pub WalksIn : SyncMode → SyncPlan → Type 0
WalksIn mode plan = All (λ r. r.mode ≡ mode) plan.walk_requests × Distinct plan.walk_requests

Distinct-snoc :
    (rs : List WalkRequest) (s : WalkRequest)
    → any (λ r. same_walk r s) rs ≡ false
    → Distinct rs
    → Distinct (rs ++ s ∷ [])
Distinct-snoc [] s h d = (tt, tt)
Distinct-snoc (r ∷ rs) s h (first, d) =
    let (new, later) = any-false (λ q. same_walk q s) r rs h in
    (All-snoc _ rs s first new, Distinct-snoc rs s later d)

-- Requesting a walk in a mode keeps the requests in that mode and without repetition.
insert_walk_request-WalksIn :
    (mode : SyncMode) (path : String) (reason : WalkReason) (timing : WalkTiming) (plan : SyncPlan)
    → WalksIn mode plan
    → WalksIn mode (insert_walk_request path mode reason timing plan)
unfolding insert_walk_request
insert_walk_request-WalksIn mode path reason timing plan (in_mode, distinct) =
    elim (Bool-cases
      (any (λ request. str_eq request.path path && mode_eq request.mode mode) plan.walk_requests)) [
        | inl known ↦ rw known (in_mode, distinct)
        | inr fresh ↦ rw fresh (
          All-snoc _ plan.walk_requests _ in_mode refl,
          Distinct-snoc plan.walk_requests _ fresh distinct,
        )
      ]

insert_walk_request-All_lem :
    (Q : String → Type 0) (path : String) (mode : SyncMode) (reason : WalkReason)
    (timing : WalkTiming) (plan : SyncPlan)
    → Q path
    → All (λ r. Q r.path) plan.walk_requests
    → All (λ r. Q r.path) (insert_walk_request path mode reason timing plan).walk_requests
unfolding insert_walk_request
insert_walk_request-All_lem Q path mode reason timing plan here before =
    if-rule (λ (p : SyncPlan). All (λ r. Q r.path) p.walk_requests)
      (any (λ request. str_eq request.path path && mode_eq request.mode mode) plan.walk_requests)
      (λ known. before) (λ fresh. All-snoc _ plan.walk_requests _ before here)

pub All-trivial : (paths : List String) → All (λ path. Unit {0}) paths
All-trivial [] = tt
All-trivial (path ∷ paths) = (tt, All-trivial paths)

-- The walks that a plan requests are in the mode of the children, and no two are for one path.
pub build_sync_plan-WalksIn :
    (host : Host) (mode : SyncMode) (paths : List String) (entries : Entries)
    → WalksIn (next_child_mode mode) (build_sync_plan host mode paths entries)
unfolding build_sync_plan
build_sync_plan-WalksIn host mode paths entries =
    paths_keep host mode (λ path. Unit {0}) (WalksIn (next_child_mode mode)) (λ a plan p. p)
      (λ path reason timing plan _.
        insert_walk_request-WalksIn (next_child_mode mode) path reason timing plan)
      entries paths _ (All-trivial paths) (tt, tt)

-- A walk is requested only of a path that is synchronised.
pub build_sync_plan-walks :
    (Q : String → Type 0) (host : Host) (mode : SyncMode) (paths : List String) (entries : Entries)
    → All Q paths
    → All (λ r. Q r.path) (build_sync_plan host mode paths entries).walk_requests
unfolding build_sync_plan
build_sync_plan-walks Q host mode paths entries q =
    paths_keep host mode Q (λ plan. All (λ r. Q r.path) plan.walk_requests) (λ a plan p. p)
      (λ path. insert_walk_request-All_lem Q path (next_child_mode mode)) entries paths _ q tt

-- ===== src/Drive/SyncPlan/Model.antt =====
-- The actions, the walk requests and the plan of drive/sync.rs, and how requests are added.
use cloudreve_desktop.Prelude.{
  if◌then◌else◌, any, String, Bool, true, false, not, ◌&&◌, ◌||◌, List, [], ◌∷◌, ◌++◌, str_eq,
}
use cloudreve_desktop.Drive.Files.{FileResponse, LocalFileInfo, is_placeholder, is_folder_populated}

pub data SyncMode : Type 0 where
  path_only path_and_first_layer full_hierarchy : SyncMode

pub data UploadReason : Type 0 where
  remote_mismatch remote_missing : UploadReason

pub data SyncAction : Type 0 where
  create_placeholder_and_inventory : String → FileResponse → SyncAction
  record_inventory_from_remote : String → FileResponse → (mark_conflicted : Bool) → SyncAction
  update_inventory_from_remote : String → FileResponse → (invalidate_all : Bool) → SyncAction
  queue_upload : String → UploadReason → SyncAction
  queue_download : String → FileResponse → SyncAction
  delete_local_and_inventory : String → (skip_if_not_empty : Bool) → SyncAction
  create_remote_folder_if_exist : String → SyncAction
  rename_local_with_conflict : (original renamed : String) → SyncAction
  preserve_unavailable_received_item : String → SyncAction

pub data WalkReason : Type 0 where
  mode_propagation diff_triggered : WalkReason

pub data WalkTiming : Type 0 where
  immediate deferred : WalkTiming

pub record WalkRequest : Type 0 where
  pub path : String
  pub mode : SyncMode
  pub reason : WalkReason
  pub timing : WalkTiming

pub record SyncPlan : Type 0 where
  pub actions : List SyncAction
  pub walk_requests : List WalkRequest

pub data ExistingRemoteLocalFileDecision : Type 0 where
  same_content conflict : ExistingRemoteLocalFileDecision

abbrev pub mode_eq : SyncMode → SyncMode → Bool
mode_eq SyncMode.path_only SyncMode.path_only = true
mode_eq SyncMode.path_and_first_layer SyncMode.path_and_first_layer = true
mode_eq SyncMode.full_hierarchy SyncMode.full_hierarchy = true
mode_eq _ _ = false

unfoldable pub next_child_mode : SyncMode → SyncMode
next_child_mode SyncMode.full_hierarchy = SyncMode.full_hierarchy
next_child_mode SyncMode.path_and_first_layer = SyncMode.path_only
next_child_mode SyncMode.path_only = SyncMode.path_only

-- `plan.actions.push(…)`
abbrev pub push : SyncAction → SyncPlan → SyncPlan
push action plan = record plan { actions = plan.actions ++ action ∷ [] }

unfoldable pub insert_walk_request :
    String → SyncMode → WalkReason → WalkTiming → SyncPlan → SyncPlan
insert_walk_request path mode reason timing plan =
    if any (λ request. str_eq request.path path && mode_eq request.mode mode) plan.walk_requests
    then plan
    else record plan {
      walk_requests =
          plan.walk_requests
          ++ record { path = path; mode = mode; reason = reason; timing = timing } ∷ [];
    }

unfoldable pub maybe_enqueue_walk_for_directory :
    String → SyncMode → LocalFileInfo → (force_diff at_once : Bool) → SyncPlan → SyncPlan
unfolding insert_walk_request next_child_mode
maybe_enqueue_walk_for_directory path parent_mode local force_diff at_once plan =
    let timing = if at_once then WalkTiming.immediate else WalkTiming.deferred in
    if not local.is_directory
    then plan
    else if not (mode_eq parent_mode SyncMode.path_only)
        && (is_folder_populated local || not (is_placeholder local))
    then insert_walk_request path (next_child_mode parent_mode) WalkReason.mode_propagation timing
        plan
    else if force_diff && mode_eq parent_mode SyncMode.path_only
    then insert_walk_request path SyncMode.path_only WalkReason.diff_triggered timing plan
    else plan

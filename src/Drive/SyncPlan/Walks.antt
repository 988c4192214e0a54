-- ===== src/Drive/SyncPlan/Walks.antt =====
-- How requests to walk a directory are added to a plan.
use cloudreve_desktop.Prelude.{
  Bool-cases, any, String, ◌≡◌, refl, inl, inr, Bool, not, ◌&&◌, ◌||◌, str_eq, if-rule, if_not-rule,
  and_right, true,
}
use cloudreve_desktop.Drive.Files.{LocalFileInfo, is_placeholder, is_folder_populated}
use cloudreve_desktop.Drive.SyncPlan.Model.{
  SyncMode, WalkReason, WalkTiming, SyncPlan, insert_walk_request, mode_eq, next_child_mode,
  maybe_enqueue_walk_for_directory,
}

pub insert_walk_request-actions :
    (path : String) (mode : SyncMode) (reason : WalkReason) (timing : WalkTiming) (plan : SyncPlan)
    → (insert_walk_request path mode reason timing plan).actions ≡ plan.actions
unfolding insert_walk_request
insert_walk_request-actions path mode reason timing plan =
    elim (Bool-cases
      (any (λ request. str_eq request.path path && mode_eq request.mode mode) plan.walk_requests)) [
        | inl known ↦ rw known refl
        | inr fresh ↦ rw fresh refl
      ]

-- The modes that a walk is requested in are the one below the parent's.
pub maybe_enqueue_walk-cases {κ} :
    (path : String) (mode : SyncMode) (local : LocalFileInfo) (force_diff at_once : Bool)
    (plan : SyncPlan) (P : SyncPlan → Type κ)
    → P plan
    → ((reason : WalkReason) (timing : WalkTiming)
        → P (insert_walk_request path (next_child_mode mode) reason timing plan))
    → P (maybe_enqueue_walk_for_directory path mode local force_diff at_once plan)
unfolding maybe_enqueue_walk_for_directory next_child_mode
maybe_enqueue_walk-cases path mode local force_diff at_once plan P stays walks =
    if_not-rule P local.is_directory (λ file. stays)
      (λ dir.
        if-rule P
          (not (mode_eq mode SyncMode.path_only)
            && (is_folder_populated local || not (is_placeholder local)))
          (λ propagated. walks _ _)
          (λ kept.
            if-rule P (force_diff && mode_eq mode SyncMode.path_only)
              (λ forced. diff _ mode (and_right force_diff _ forced) walks) (λ free. stays)))
  where
    diff :
        (timing : WalkTiming) (mode : SyncMode)
        → mode_eq mode SyncMode.path_only ≡ true
        → ((reason : WalkReason) (timing : WalkTiming)
            → P (insert_walk_request path (next_child_mode mode) reason timing plan))
        → P (insert_walk_request path SyncMode.path_only WalkReason.diff_triggered timing plan)
    diff timing SyncMode.path_only h walks = walks _ _
    diff timing SyncMode.path_and_first_layer h walks = absurd cc
    diff timing SyncMode.full_hierarchy h walks = absurd cc

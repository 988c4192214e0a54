-- ===== src/Drive/SyncPlan/Due.antt =====
-- Which directories a plan of drive/sync.rs walks, told from the remote, the local and the inventory
-- state of each path.
use cloudreve_desktop.Prelude.{
  if◌then◌else◌, any, String, ◌≡◌, refl, Bool, true, false, not, ◌&&◌, ◌||◌, Option, none, some,
  List, [], ◌∷◌, ◌++◌, str_eq, Bool-cases, inl, inr, if-rule, if_not-rule, subst, arith,
}
use cloudreve_desktop.Drive.Files.{
  FileMetadata, FileResponse, LocalFileInfo, is_placeholder, is_folder_populated, is_folder,
  is_received_item,
}
use cloudreve_desktop.Drive.Fingerprint.{Host}
use cloudreve_desktop.Drive.Changes.{local_has_changes, bool_eq, remote_change}
use cloudreve_desktop.Drive.SyncPlan.Model.{
  SyncMode, WalkReason, WalkTiming, WalkRequest, SyncPlan, insert_walk_request, mode_eq,
  next_child_mode, maybe_enqueue_walk_for_directory,
}
use cloudreve_desktop.Drive.SyncPlan.FilePlan.{is_unchanged}
use cloudreve_desktop.Drive.SyncPlan.Entry.{plan_entry_with_remote_and_local, plan_own_local}
use cloudreve_desktop.Drive.SyncPlan.Requests.{file_keeps, mismatch_keeps}

-- The item was received from another user.
abbrev pub is_received : Option FileMetadata → Bool
is_received none = false
is_received (some entry) = is_received_item entry

-- A local directory is walked, where the server has it too, if the mode goes further down and its
-- children are on disk; where the server has it not, if its children are on disk and it was not
-- received from another user.
abbrev pub is_due : SyncMode → Option FileResponse → LocalFileInfo → Option FileMetadata → Bool
is_due mode (some remote) local inventory =
    local.exists
    && (local.is_directory
        && (is_folder remote
            && (not (mode_eq mode SyncMode.path_only)
                && (is_folder_populated local || not (is_placeholder local)))))
is_due mode none local inventory =
    local.exists
    && (local.is_directory && (is_folder_populated local && not (is_received inventory)))

-- The requests with one more, unless it is there already.
abbrev pub inserted :
    String → SyncMode → WalkReason → WalkTiming → List WalkRequest → List WalkRequest
inserted path mode reason timing requests =
    if any (λ request. str_eq request.path path && mode_eq request.mode mode) requests
    then requests
    else requests ++ record { path = path; mode = mode; reason = reason; timing = timing } ∷ []

-- Where it is due, a walk of the path is requested, and else none is.
abbrev pub Asked : Bool → String → SyncMode → List WalkRequest → List WalkRequest → Type 0
Asked true path mode before after =
    (reason : WalkReason) × (timing : WalkTiming) × (after
      ≡ inserted path (next_child_mode mode) reason timing before)
Asked false path mode before after = after ≡ before

insert_walk_request-inserted :
    (path : String) (mode : SyncMode) (reason : WalkReason) (timing : WalkTiming) (plan : SyncPlan)
    → (insert_walk_request path mode reason timing plan).walk_requests
      ≡ inserted path mode reason timing plan.walk_requests
unfolding insert_walk_request
insert_walk_request-inserted path mode reason timing plan =
    elim (Bool-cases
      (any (λ request. str_eq request.path path && mode_eq request.mode mode) plan.walk_requests)) [
        | inl known ↦ rw known refl
        | inr fresh ↦ rw fresh refl
      ]

-- The mode goes further down and the children are on disk, or a difference is to be looked into.
abbrev goes_down : SyncMode → (shown force_diff : Bool) → Bool
goes_down mode shown force_diff =
    (not (mode_eq mode SyncMode.path_only) && shown)
    || (force_diff && mode_eq mode SyncMode.path_only)

module _ (path : String) where
  enqueue-Asked :
      (dir shown : Bool) (mode : SyncMode) (force_diff : Bool) (timing : WalkTiming)
      (plan : SyncPlan)
      → Asked
          (dir && goes_down mode shown force_diff)
          path
          mode
          plan.walk_requests
          (if not dir
            then plan
            else if not (mode_eq mode SyncMode.path_only) && shown
            then insert_walk_request path
                (next_child_mode mode)
                WalkReason.mode_propagation
                timing
                plan
            else if force_diff && mode_eq mode SyncMode.path_only
            then insert_walk_request path SyncMode.path_only WalkReason.diff_triggered timing plan
            else plan).walk_requests
  unfolding next_child_mode
  enqueue-Asked false shown mode force_diff timing plan = refl
  enqueue-Asked true shown SyncMode.path_only true timing plan =
      (_, _, insert_walk_request-inserted path SyncMode.path_only _ _ plan)
  enqueue-Asked true shown SyncMode.path_only false timing plan = refl
  enqueue-Asked true true SyncMode.path_and_first_layer force_diff timing plan =
      (_, _, insert_walk_request-inserted path SyncMode.path_only _ _ plan)
  enqueue-Asked true false SyncMode.path_and_first_layer true timing plan = refl
  enqueue-Asked true false SyncMode.path_and_first_layer false timing plan = refl
  enqueue-Asked true true SyncMode.full_hierarchy force_diff timing plan =
      (_, _, insert_walk_request-inserted path SyncMode.full_hierarchy _ _ plan)
  enqueue-Asked true false SyncMode.full_hierarchy true timing plan = refl
  enqueue-Asked true false SyncMode.full_hierarchy false timing plan = refl

  maybe_enqueue-Asked :
      (mode : SyncMode) (local : LocalFileInfo) (force_diff at_once : Bool) (plan : SyncPlan)
      → Asked
          (local.is_directory
            && goes_down mode (is_folder_populated local || not (is_placeholder local)) force_diff)
          path
          mode
          plan.walk_requests
          (maybe_enqueue_walk_for_directory path mode local force_diff at_once plan).walk_requests
  unfolding maybe_enqueue_walk_for_directory
  maybe_enqueue-Asked mode local force_diff at_once plan =
      enqueue-Asked local.is_directory (is_folder_populated local || not (is_placeholder local))
        mode force_diff _ plan

  -- Where a walk is asked for in one more way of saying so.
  pub Asked-same :
      (a b : Bool) (mode : SyncMode) (before after : List WalkRequest)
      → a ≡ b
      → Asked a path mode before after
      → Asked b path mode before after
  Asked-same a b mode before after e h = subst (λ c. Asked c path mode before after) e h

  module _ (host : Host) (mode : SyncMode) (local : LocalFileInfo) (inventory : Option FileMetadata)
      (plan : SyncPlan) where
    -- No walk of a path is requested.
    abbrev pub Still : SyncPlan → Type 0
    Still after = after.walk_requests ≡ plan.walk_requests

    abbrev Never : String → Type 0
    Never p = ⊥

    pub both_sides-Asked :
        (remote : FileResponse)
        → Asked
            (local.is_directory
              && (is_folder remote
                  && (not (mode_eq mode SyncMode.path_only)
                      && (is_folder_populated local || not (is_placeholder local)))))
            path
            mode
            plan.walk_requests
            (plan_entry_with_remote_and_local host path mode remote local inventory
              plan).walk_requests
    unfolding plan_entry_with_remote_and_local
    both_sides-Asked remote =
        if_not-rule (P (is_folder remote)) (bool_eq local.is_directory (is_folder remote))
          (λ differs.
            Asked-same false _ mode _ _
              (no_directory local.is_directory (is_folder remote) _ differs)
              (mismatch_keeps host mode Never Still (λ a p h. h) (λ q r t p f. absurd f) path remote
                local plan refl))
          (λ same.
            if-rule (P (is_folder remote)) (is_folder remote)
              (λ folder.
                Asked-same _ _ mode _ _ (of_folder local.is_directory (is_folder remote) _ folder) (
                  if-rule
                    (λ (p : SyncPlan).
                      Asked
                        (local.is_directory
                          && goes_down mode
                              (is_folder_populated local || not (is_placeholder local)) false)
                        path mode plan.walk_requests
                        (maybe_enqueue_walk_for_directory path mode local false false
                          p).walk_requests)
                    (is_unchanged (remote_change host remote inventory))
                    (λ still. maybe_enqueue-Asked mode local false false plan)
                    (λ moved. maybe_enqueue-Asked mode local false false _)))
              (λ file.
                Asked-same false _ mode _ _ (of_file local.is_directory (is_folder remote) _ file) (
                  file_keeps host mode Never Still (λ a p h. h) (λ q r t p f. absurd f) path remote
                    local inventory plan refl)))
      where
        P : Bool → SyncPlan → Type 0
        P folder after =
            Asked
              (local.is_directory
                && (folder
                    && (not (mode_eq mode SyncMode.path_only)
                        && (is_folder_populated local || not (is_placeholder local)))))
              path mode plan.walk_requests after.walk_requests

        no_directory : (d f c : Bool) → bool_eq d f ≡ false → false ≡ (d && (f && c))
        no_directory d f c h = ground arith

        of_folder :
            (d f : Bool) (c : Bool)
            → f ≡ true
            → (d && (c || (false && mode_eq mode SyncMode.path_only))) ≡ (d && (f && c))
        of_folder d f c h = ground (arith, h)

        of_file : (d f c : Bool) → f ≡ false → false ≡ (d && (f && c))
        of_file d f c h = ground (arith, h)

    pub own-Asked :
        Asked
          (local.is_directory && is_folder_populated local)
          path
          mode
          plan.walk_requests
          (plan_own_local path mode local inventory plan).walk_requests
    unfolding plan_own_local
    own-Asked =
        if-rule P local.is_directory
          (λ dir.
            if_not-rule P (is_folder_populated local)
              (λ empty. Asked-same false _ mode _ _ (empty_lem local.is_directory _ empty) refl)
              (λ shown.
                Asked-same _ _ mode _ _
                  (shown_lem local.is_directory (is_folder_populated local) (is_placeholder local)
                    mode shown)
                  (maybe_enqueue-Asked mode local true (is_folder_populated local) plan)))
          (λ file.
            if_not-rule P (local_has_changes local inventory)
              (λ same. Asked-same false _ mode _ _ (file_lem local.is_directory _ file) refl)
              (λ changed. Asked-same false _ mode _ _ (file_lem local.is_directory _ file) refl))
      where
        P : SyncPlan → Type 0
        P after =
            Asked (local.is_directory && is_folder_populated local) path mode plan.walk_requests
              after.walk_requests

        empty_lem : (d s : Bool) → s ≡ false → false ≡ (d && s)
        empty_lem d s h = ground (arith, h)

        file_lem : (d s : Bool) → d ≡ false → false ≡ (d && s)
        file_lem d s h = ground (arith, h)

        shown_lem :
            (d s h : Bool) (m : SyncMode)
            → s ≡ true
            → (d && goes_down m (s || not h) true) ≡ (d && s)
        shown_lem d s h SyncMode.path_only e = ground (arith, e)
        shown_lem d s h SyncMode.path_and_first_layer e = ground (arith, e)
        shown_lem d s h SyncMode.full_hierarchy e = ground (arith, e)

-- ===== src/Drive/SyncPlan/Content.antt =====
-- When an entry's planned actions may touch its local content: the planning functions one by one.
use cloudreve_desktop.Prelude.{
  all, All, String, ◌≡◌, ◌⊎◌, true, false, Option, List, [], ◌∷◌, ◌++◌, Bool, some, Bool-cases,
  refl, inl, inr, not, ◌&&◌, none, if-rule, if_not-rule, subst, arith,
}
use cloudreve_desktop.Drive.Files.{
  FileMetadata, FileResponse, LocalFileInfo, is_placeholder, partial_on_disk, is_folder_populated,
  is_folder, is_received_item,
}
use cloudreve_desktop.Drive.Fingerprint.{Host, FileHashFingerprint, remote_file_hash_fingerprint}
use cloudreve_desktop.Drive.Changes.{
  bool_eq, RemoteChange, local_has_changes, remote_change, fingerprints_equal,
}
use cloudreve_desktop.Drive.SyncPlan.Model.{
  SyncMode, SyncAction, SyncPlan, UploadReason, maybe_enqueue_walk_for_directory, next_child_mode,
}
use cloudreve_desktop.Drive.SyncPlan.Walks.{insert_walk_request-actions, maybe_enqueue_walk-cases}
use cloudreve_desktop.Drive.SyncPlan.FilePlan.{
  hash_matches, is_conflicting, base_fingerprint, is_unchanged, is_pinned, plan_local_unchanged,
  plan_both_changed, plan_file_actions,
}
use cloudreve_desktop.Drive.SyncPlan.Entry.{
  plan_mismatch, plan_entry_with_remote_and_local, plan_own_local, plan_received,
  should_preserve_unavailable_received_item, plan_entry_with_local_only, plan_entry_actions,
}

pub All-snoc {ℓ κ} :
    {A : Type ℓ} (P : A → Type κ) (xs : List A) (x : A) → All P xs → P x → All P (xs ++ x ∷ [])
All-snoc P [] x h p = (p, tt)
All-snoc P (y ∷ xs) x (q, h) p = (q, All-snoc P xs x h p)

-- The path that an action is about.
abbrev pub path_of : SyncAction → String
path_of (SyncAction.create_placeholder_and_inventory path remote) = path
path_of (SyncAction.record_inventory_from_remote path remote mark) = path
path_of (SyncAction.update_inventory_from_remote path remote all) = path
path_of (SyncAction.queue_upload path reason) = path
path_of (SyncAction.queue_download path remote) = path
path_of (SyncAction.delete_local_and_inventory path skip) = path
path_of (SyncAction.create_remote_folder_if_exist path) = path
path_of (SyncAction.rename_local_with_conflict original renamed) = original
path_of (SyncAction.preserve_unavailable_received_item path) = path

-- What may replace the content of a local file: a remote version that is newer than the last synced
-- one, of other content as far as hashes tell, while the file itself has not changed.
pub record Replaceable (host : Host) (remote : FileResponse) (local : LocalFileInfo)
    (inventory : Option FileMetadata) : Type 0 where
  pub no_changes : local_has_changes local inventory ≡ false
  pub newer : remote_change host remote inventory ≡ RemoteChange.newer
  pub differs :
      fingerprints_equal
        (base_fingerprint host inventory)
        (remote_file_hash_fingerprint host remote)
      ≡ false

-- When an action may be taken on an entry with its local and its inventory state.
abbrev pub Keeps : Host → LocalFileInfo → Option FileMetadata → SyncAction → Type 0
Keeps host local inventory (SyncAction.update_inventory_from_remote path entry true) =
    Replaceable host entry local inventory × (partial_on_disk local ≡ false)
Keeps host local inventory (SyncAction.queue_download path entry) =
    Replaceable host entry local inventory × (is_pinned local.pin_state ≡ true)
Keeps host local inventory (SyncAction.delete_local_and_inventory path false) =
    (local_has_changes local inventory ≡ false)
    ⊎ ((is_placeholder local ≡ true) × (partial_on_disk local ≡ true))
    ⊎ ((local.is_directory ≡ true) × (is_folder_populated local ≡ false))
Keeps host local inventory _ = Unit

-- The local and the remote entry are a file and a directory.
abbrev pub Mismatched : FileResponse → LocalFileInfo → Type 0
Mismatched remote local = bool_eq local.is_directory (is_folder remote) ≡ false

-- Why an action is taken, from the remote, the local and the inventory state of its path.
abbrev pub Because : Option FileResponse → LocalFileInfo → Option FileMetadata → SyncAction → Type 0
Because found local inventory (SyncAction.create_placeholder_and_inventory path remote) =
    (found ≡ some remote) × ((local.exists ≡ false) ⊎ Mismatched remote local)
Because found local inventory (SyncAction.record_inventory_from_remote path remote mark) =
    found ≡ some remote
Because found local inventory (SyncAction.update_inventory_from_remote path remote every) =
    found ≡ some remote
Because found local inventory (SyncAction.queue_download path remote) = found ≡ some remote
Because found local inventory (SyncAction.queue_upload path UploadReason.remote_mismatch) =
    ((remote : FileResponse) × (found ≡ some remote))
    × (local_has_changes local inventory ≡ true)
    × (is_conflicting inventory ≡ false)
Because found local inventory (SyncAction.queue_upload path UploadReason.remote_missing) =
    (found ≡ none) × (local_has_changes local inventory ≡ true) × (local.is_directory ≡ false)
Because found local inventory (SyncAction.delete_local_and_inventory path false) =
    (found ≡ none)
    ⊎ ((remote : FileResponse) × (found ≡ some remote)
        × Mismatched remote local
        × (is_placeholder local ≡ true)
        × (partial_on_disk local ≡ true))
Because found local inventory (SyncAction.delete_local_and_inventory path true) =
    (found ≡ none) × (is_folder_populated local ≡ true)
Because found local inventory (SyncAction.create_remote_folder_if_exist path) =
    (found ≡ none) × (local.is_directory ≡ true) × (is_folder_populated local ≡ true)
Because found local inventory (SyncAction.rename_local_with_conflict original renamed) =
    (remote : FileResponse) × (found ≡ some remote) × Mismatched remote local
Because found local inventory (SyncAction.preserve_unavailable_received_item path) =
    (found ≡ none)
    × ((entry : FileMetadata) × (inventory ≡ some entry) × (is_received_item entry ≡ true))

module _ (host : Host) (path : String) (found : Option FileResponse) (local : LocalFileInfo)
    (inventory : Option FileMetadata) (Q : SyncAction → Type 0)
    (imp : (a : SyncAction)
      → path_of a ≡ path
      → Keeps host local inventory a
      → Because found local inventory a
      → Q a) where
  abbrev pub Fine : SyncPlan → Type 0
  Fine plan = All Q plan.actions

  plan_local_unchanged_lem :
      (remote : FileResponse) (state : RemoteChange) (identical : Bool) (plan : SyncPlan)
      → local_has_changes local inventory ≡ false
      → remote_change host remote inventory ≡ state
      → fingerprints_equal
          (base_fingerprint host inventory)
          (remote_file_hash_fingerprint host remote)
        ≡ identical
      → found ≡ some remote
      → Fine plan
      → Fine (plan_local_unchanged path remote local state identical plan)
  unfolding plan_local_unchanged
  plan_local_unchanged_lem remote RemoteChange.unchanged identical plan unchanged e f known fine =
      fine
  plan_local_unchanged_lem remote RemoteChange.older true plan unchanged e f known fine =
      All-snoc _ plan.actions _ fine (imp _ refl tt known)
  plan_local_unchanged_lem remote RemoteChange.older false plan unchanged e f known fine =
      All-snoc _ plan.actions _ fine (imp _ refl tt known)
  plan_local_unchanged_lem remote RemoteChange.newer true plan unchanged e f known fine =
      All-snoc _ plan.actions _ fine (imp _ refl tt known)
  plan_local_unchanged_lem remote RemoteChange.newer false plan unchanged e f known fine =
      elim (Bool-cases (is_pinned local.pin_state)) [
        | inl pinned ↦
            rw pinned (All-snoc _ plan.actions _ fine (imp _ refl (replaceable, pinned) known))
        | inr free ↦ elim (Bool-cases (partial_on_disk local)) [
          | inl partial ↦
              rw free (rw partial (All-snoc _ plan.actions _ fine (imp _ refl tt known)))
          | inr whole ↦
              rw free
                (rw whole (All-snoc _ plan.actions _ fine (imp _ refl (replaceable, whole) known)))
        ]
      ]
    where
      replaceable : Replaceable host remote local inventory
      replaceable = record { no_changes = unchanged; newer = e; differs = f }

  plan_both_changed_lem :
      (remote : FileResponse) (fingerprint : Option FileHashFingerprint) (plan : SyncPlan)
      → found ≡ some remote
      → local_has_changes local inventory ≡ true
      → is_conflicting inventory ≡ false
      → Fine plan
      → Fine (plan_both_changed host path remote local fingerprint plan)
  unfolding plan_both_changed
  plan_both_changed_lem remote none plan known changed free fine =
      All-snoc _ plan.actions _ fine (imp _ refl tt ((remote, known), changed, free))
  plan_both_changed_lem remote (some fingerprint) plan known changed free fine =
      elim (Bool-cases (not (partial_on_disk local) && hash_matches host path fingerprint)) [
        | inl same ↦ rw same (All-snoc _ plan.actions _ fine (imp _ refl tt known))
        | inr other ↦
            rw other
              (All-snoc _ plan.actions _ fine (imp _ refl tt ((remote, known), changed, free)))
      ]

  pub plan_file_actions_lem :
      (remote : FileResponse) (plan : SyncPlan)
      → found ≡ some remote
      → Fine plan
      → Fine (plan_file_actions host path remote local inventory plan)
  unfolding plan_file_actions
  plan_file_actions_lem remote plan known fine =
      elim (Bool-cases (local_has_changes local inventory)) [
        | inr unchanged ↦
            rw unchanged (plan_local_unchanged_lem remote _ _ plan unchanged refl refl known fine)
        | inl changed ↦
            rw changed (elim (Bool-cases (is_unchanged (remote_change host remote inventory))) [
              | inl same ↦ rw same (elim (Bool-cases (is_conflicting inventory)) [
                | inl waits ↦ rw waits fine
                | inr free ↦ rw free (
                    All-snoc _ plan.actions _ fine (imp _ refl tt ((remote, known), changed, free)))
              ])
              | inr moved ↦ rw moved (elim (Bool-cases (is_conflicting inventory)) [
                | inl waits ↦ rw waits fine
                | inr free ↦ rw free (plan_both_changed_lem remote _ plan known changed free fine)
              ])
            ])
      ]

  plan_mismatch_lem :
      (remote : FileResponse) (plan : SyncPlan)
      → found ≡ some remote
      → Mismatched remote local
      → Fine plan
      → Fine (plan_mismatch host path remote local plan)
  unfolding plan_mismatch
  plan_mismatch_lem remote plan known differs fine = elim (Bool-cases (is_placeholder local)) [
    | inl holder ↦ elim (Bool-cases (partial_on_disk local)) [
      | inl partial ↦
          rw (holder, partial)
            (All-snoc _ (plan.actions ++ _ ∷ []) _
              (All-snoc _ plan.actions _ fine (
                imp _ refl (inr (inl (holder, partial)))
                  (inr (remote, known, differs, holder, partial))))
              (imp _ refl tt (known, inr differs)))
      | inr whole ↦
          rw (holder, whole)
            (All-snoc _ (plan.actions ++ _ ∷ []) _
              (All-snoc _ plan.actions _ fine (imp _ refl tt (remote, known, differs)))
              (imp _ refl tt (known, inr differs)))
    ]
    | inr plain ↦ rw plain (
        All-snoc _ (plan.actions ++ _ ∷ []) _
          (All-snoc _ plan.actions _ fine (imp _ refl tt (remote, known, differs)))
          (imp _ refl tt (known, inr differs)))
  ]

  walk_lem :
      (mode : SyncMode) (force_diff at_once : Bool) (plan : SyncPlan)
      → Fine plan
      → Fine (maybe_enqueue_walk_for_directory path mode local force_diff at_once plan)
  walk_lem mode force_diff at_once plan fine =
      maybe_enqueue_walk-cases path mode local force_diff at_once plan Fine fine (λ reason timing.
        rw (insert_walk_request-actions path (next_child_mode mode) reason timing plan) fine)

  with_remote_and_local_lem :
      (mode : SyncMode) (remote : FileResponse) (plan : SyncPlan)
      → found ≡ some remote
      → Fine plan
      → Fine (plan_entry_with_remote_and_local host path mode remote local inventory plan)
  unfolding plan_entry_with_remote_and_local
  with_remote_and_local_lem mode remote plan known fine =
      elim (Bool-cases (bool_eq local.is_directory (is_folder remote))) [
        | inr mismatch ↦ rw mismatch (plan_mismatch_lem remote plan known mismatch fine)
        | inl same ↦ rw same (elim (Bool-cases (is_folder remote)) [
          | inr file ↦ rw file (plan_file_actions_lem remote plan known fine)
          | inl dir ↦
              rw dir (elim (Bool-cases (is_unchanged (remote_change host remote inventory))) [
                | inl still ↦ rw still (walk_lem mode false false plan fine)
                | inr moved ↦ rw moved (
                    walk_lem mode false false _
                      (All-snoc _ plan.actions _ fine (imp _ refl tt known)))
              ])
        ])
      ]

  plan_own_local_lem :
      (mode : SyncMode) (plan : SyncPlan)
      → found ≡ none
      → Fine plan
      → Fine (plan_own_local path mode local inventory plan)
  unfolding plan_own_local
  plan_own_local_lem mode plan gone fine =
      if-rule P local.is_directory
        (λ dir.
          if_not-rule P (is_folder_populated local)
            (λ empty.
              All-snoc _ plan.actions _ fine (imp _ refl (inr (inr (dir, empty))) (inl gone)))
            (λ hydrated.
              All-snoc _ (_ ++ _ ∷ []) _
                (All-snoc _ _ _ (walk_lem mode true (is_folder_populated local) plan fine)
                  (imp _ refl tt (gone, hydrated)))
                (imp _ refl tt (gone, dir, hydrated))))
        (λ file.
          if_not-rule P (local_has_changes local inventory)
            (λ unchanged. All-snoc _ plan.actions _ fine (imp _ refl (inl unchanged) (inl gone)))
            (λ changed. All-snoc _ plan.actions _ fine (imp _ refl tt (gone, changed, file))))
    where
      P : SyncPlan → Type 0
      P plan = Fine plan

  plan_received_lem :
      (entry : FileMetadata) (plan : SyncPlan)
      → inventory ≡ some entry
      → found ≡ none
      → is_received_item entry ≡ true
      → Fine plan
      → Fine (plan_received path local entry plan)
  unfolding plan_received should_preserve_unavailable_received_item
  plan_received_lem entry plan e gone received fine =
      if-rule Fine (should_preserve_unavailable_received_item local entry)
        (λ keep. All-snoc _ plan.actions _ fine (imp _ refl tt (gone, (entry, e, received))))
        (λ lost. All-snoc _ plan.actions _ fine (imp _ refl (why lost) (inl gone)))
    where
      why :
          should_preserve_unavailable_received_item local entry ≡ false
          → Keeps host local inventory (SyncAction.delete_local_and_inventory path false)
      why h = elim (Bool-cases local.is_directory) [
        | inl dir ↦ inr (inr (dir, not_populated dir h))
        | inr file ↦ inl (rw e (unchanged file h))
      ]
        where
          not_populated :
              local.is_directory ≡ true
              → should_preserve_unavailable_received_item local entry ≡ false
              → is_folder_populated local ≡ false
          not_populated dir h = ground (arith, dir, h)

          unchanged :
              local.is_directory ≡ false
              → should_preserve_unavailable_received_item local entry ≡ false
              → local_has_changes local (some entry) ≡ false
          unchanged file h = ground (arith, file, h)

  local_only_lem :
      (mode : SyncMode) (plan : SyncPlan) (row : Option FileMetadata)
      → inventory ≡ row
      → found ≡ none
      → Fine plan
      → Fine (plan_entry_with_local_only path mode local row plan)
  unfolding plan_entry_with_local_only
  local_only_lem mode plan none e gone fine =
      if-rule Fine local.exists
        (λ here.
          subst (λ i. Fine (plan_own_local path mode local i plan)) e
            (plan_own_local_lem mode plan gone fine))
        (λ missing. fine)
  local_only_lem mode plan (some entry) e gone fine =
      if-rule Fine local.exists
        (λ here.
          if-rule Fine (is_received_item entry)
            (λ received. plan_received_lem entry plan e gone received fine)
            (λ own.
              subst (λ i. Fine (plan_own_local path mode local i plan)) e
                (plan_own_local_lem mode plan gone fine)))
        (λ missing. fine)

  pub plan_entry_lem :
      (mode : SyncMode) (remote : Option FileResponse) (plan : SyncPlan)
      → found ≡ remote
      → Fine plan
      → Fine (plan_entry_actions host path mode remote local inventory plan)
  unfolding plan_entry_actions
  plan_entry_lem mode (some remote) plan known fine =
      if-rule Fine local.exists (λ here. with_remote_and_local_lem mode remote plan known fine)
        (λ absent. All-snoc _ plan.actions _ fine (imp _ refl tt (known, inl absent)))
  plan_entry_lem mode none plan gone fine =
      if-rule Fine local.exists (λ here. local_only_lem mode plan inventory refl gone fine)
        (λ absent. fine)

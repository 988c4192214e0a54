-- ===== src/Drive/SyncPlan/Asked.antt =====
-- A path's planning in drive/sync.rs requests a walk of it exactly if the path is due.
use cloudreve_desktop.Prelude.{
  if-rule, String, ◌≡◌, refl, Bool, true, false, not, ◌&&◌, Option, none, some, arith, sym, ◌||◌,
}
use cloudreve_desktop.Dict.{lookup, string_eq}
use cloudreve_desktop.Drive.Files.{
  is_folder, is_placeholder, is_some, FileMetadata, FileResponse, LocalFileInfo, missing,
}
use cloudreve_desktop.Drive.Fingerprint.{Host}
use cloudreve_desktop.Drive.Changes.{unwrap_or}
use cloudreve_desktop.Drive.SyncPlan.Model.{SyncMode, SyncPlan, ExistingRemoteLocalFileDecision}
use cloudreve_desktop.Drive.SyncPlan.Entry.{plan_entry_with_local_only, plan_entry_actions}
use cloudreve_desktop.Drive.SyncPlan.Build.{
  decide_existing_local_remote_file, Entries, decide, record_decision, plan_path,
}
use cloudreve_desktop.Drive.SyncPlan.Requests.{received_keeps}
use cloudreve_desktop.Drive.SyncPlan.Due.{
  is_received, is_due, Asked, Asked-same, both_sides-Asked, own-Asked,
}

and_absent : (x c : Bool) → x ≡ false → false ≡ (x && c)
and_absent x c h = ground (arith, h)

and_given : (x c : Bool) → x ≡ true → c ≡ (x && c)
and_given x c h = ground (arith, h)

not_given : (x : Bool) → x ≡ true → not x ≡ false
not_given x h = ground (arith, h)

not_absent : (x : Bool) → x ≡ false → not x ≡ true
not_absent x h = ground (arith, h)

module _ (path : String) (host : Host) (mode : SyncMode) (local : LocalFileInfo)
    (plan : SyncPlan) where
  abbrev AskedAfter : Bool → SyncPlan → Type 0
  AskedAfter due after = Asked due path mode plan.walk_requests after.walk_requests

  local_only-Asked :
      (inventory : Option FileMetadata)
      → AskedAfter
          (is_due mode none local inventory)
          (plan_entry_with_local_only path mode local inventory plan)
  unfolding plan_entry_with_local_only
  local_only-Asked none =
      if-rule (AskedAfter (is_due mode none local none)) local.exists
        (λ here.
          Asked-same path _ _ mode _ _ (own_lem local.exists local.is_directory _ here)
            (own-Asked path host mode local none plan))
        (λ gone. Asked-same path false _ mode _ _ (and_absent local.exists _ gone) refl)
    where
      own_lem : (x d s : Bool) → x ≡ true → (d && s) ≡ (x && (d && (s && true)))
      own_lem x d s h = ground (arith, h)
  local_only-Asked (some entry) =
      if-rule (AskedAfter (is_due mode none local (some entry))) local.exists
        (λ here.
          if-rule (AskedAfter (is_due mode none local (some entry))) (is_received (some entry))
            (λ received.
              Asked-same path false _ mode _ _
                (received_lem local.exists local.is_directory _ (is_received (some entry)) received)
                (received_keeps host mode (λ p. ⊥)
                  (λ (p : SyncPlan). p.walk_requests ≡ plan.walk_requests) (λ a p h. h)
                  (λ q r t p f. absurd f) path local entry plan refl))
            (λ own.
              Asked-same path _ _ mode _ _
                (own_lem local.exists local.is_directory _ (is_received (some entry)) here own)
                (own-Asked path host mode local (some entry) plan)))
        (λ gone. Asked-same path false _ mode _ _ (and_absent local.exists _ gone) refl)
    where
      own_lem : (x d s r : Bool) → x ≡ true → r ≡ false → (d && s) ≡ (x && (d && (s && not r)))
      own_lem x d s r h k = ground (arith, h, k)

      received_lem : (x d s r : Bool) → r ≡ true → false ≡ (x && (d && (s && not r)))
      received_lem x d s r h = ground (arith, h)

  entry-Asked :
      (remote : Option FileResponse) (inventory : Option FileMetadata)
      → AskedAfter
          (is_due mode remote local inventory)
          (plan_entry_actions host path mode remote local inventory plan)
  unfolding plan_entry_actions
  entry-Asked (some remote) inventory =
      if-rule (AskedAfter (is_due mode (some remote) local inventory)) local.exists
        (λ here.
          Asked-same path _ _ mode _ _ (and_given local.exists _ here)
            (both_sides-Asked path host mode local inventory plan remote))
        (λ gone. Asked-same path false _ mode _ _ (and_absent local.exists _ gone) refl)
  entry-Asked none inventory =
      if-rule (AskedAfter (is_due mode none local inventory)) local.exists
        (λ here. local_only-Asked inventory)
        (λ gone. Asked-same path false _ mode _ _ (and_absent local.exists _ gone) refl)

-- A file without an inventory row is the only entry on which a decision is made, so it is not due.
decided-file :
    (host : Host) (path : String) (mode : SyncMode) (remote : Option FileResponse)
    (local : Option LocalFileInfo) (inventory : Option FileMetadata)
    (x : ExistingRemoteLocalFileDecision × FileResponse)
    → decide host path remote local inventory ≡ some x
    → is_due mode remote (unwrap_or local missing) inventory ≡ false
unfolding decide decide_existing_local_remote_file unwrap_or
decided-file host path mode none local inventory x e = absurd cc
decided-file host path mode (some remote) none inventory x e = absurd cc
decided-file host path mode (some remote) (some local) inventory x e =
    if-rule
      (λ (d : Option ExistingRemoteLocalFileDecision).
        chosen d ≡ some x → is_due mode (some remote) local inventory ≡ false)
      (is_some inventory
        || (not local.exists || (local.is_directory || (is_placeholder local || is_folder remote))))
      (λ blocked h. absurd cc)
      (λ free h.
        file_lem local.exists local.is_directory _
          (free_lem (is_some inventory) (not local.exists) local.is_directory _ free))
      e
  where
    chosen :
        Option ExistingRemoteLocalFileDecision
        → Option (ExistingRemoteLocalFileDecision × FileResponse)
    chosen decision = elim decision [ none ↦ none | some d ↦ some (d, remote) ]

    free_lem : (a b d c : Bool) → (a || (b || (d || c))) ≡ false → d ≡ false
    free_lem a b d c h = ground arith

    file_lem : (x d c : Bool) → d ≡ false → (x && (d && c)) ≡ false
    file_lem x d c h = ground (arith, h)

-- A path that is synchronised, not ignored, and due.
abbrev pub walk_due : Host → SyncMode → Entries → String → Bool
walk_due host mode entries path =
    not (host.is_ignored path)
    && is_due mode (lookup path entries.remote_files)
        (unwrap_or (lookup path entries.local_files) missing)
        (lookup path entries.inventory_entries)

module _ (host : Host) (mode : SyncMode) (entries : Entries) where
  pub plan_path-Asked :
      (path : String) (plan : SyncPlan)
      → Asked
          (walk_due host mode entries path)
          path
          mode
          plan.walk_requests
          (plan_path host mode entries path plan).walk_requests
  unfolding plan_path record_decision
  plan_path-Asked path plan =
      if-rule
        (λ (p : SyncPlan).
          Asked (walk_due host mode entries path) path mode plan.walk_requests p.walk_requests)
        (host.is_ignored path)
        (λ ignored.
          Asked-same path false _ mode _ _
            (and_absent (not (host.is_ignored path)) _ (not_given _ ignored)) refl)
        (λ shown.
          Asked-same path _ _ mode _ _
            (and_given (not (host.is_ignored path)) _ (not_absent _ shown))
            (decided
              (decide host path (lookup path entries.remote_files) (lookup path entries.local_files)
                (lookup path entries.inventory_entries))
              refl))
    where
      due : Bool
      due =
          is_due mode (lookup path entries.remote_files)
            (unwrap_or (lookup path entries.local_files) missing)
            (lookup path entries.inventory_entries)

      planned : SyncPlan
      planned =
          plan_entry_actions host path mode (lookup path entries.remote_files)
            (unwrap_or (lookup path entries.local_files) missing)
            (lookup path entries.inventory_entries) plan

      decided :
          (decision : Option (ExistingRemoteLocalFileDecision × FileResponse))
          → decide host path
              (lookup path entries.remote_files)
              (lookup path entries.local_files)
              (lookup path entries.inventory_entries)
            ≡ decision
          → Asked due path mode plan.walk_requests
              (record_decision path decision plan planned).walk_requests
      decided none e =
          entry-Asked path host mode (unwrap_or (lookup path entries.local_files) missing) plan
            (lookup path entries.remote_files) (lookup path entries.inventory_entries)
      decided (some (decision, remote)) e =
          Asked-same path false due mode _ _
            (sym (
              decided-file host path mode (lookup path entries.remote_files)
                (lookup path entries.local_files) (lookup path entries.inventory_entries)
                (decision, remote) e))
            refl

-- ===== src/Drive/SyncPlan/Safety.antt =====
-- What a whole plan does with local content, with conflicts and with plain local directories.
use cloudreve_desktop.Prelude.{
  if-rule, All, String, ◌≡◌, sym, subst, false, Option, none, some, List, [], ◌∷◌, ◌⊎◌, Bool, true,
  if_not-rule, refl, inl, inr, not, ◌&&◌, arith, ap, some_inj,
}
use cloudreve_desktop.Dict.{lookup, string_eq}
use cloudreve_desktop.Drive.Files.{
  FileMetadata, FileResponse, LocalFileInfo, missing, partial_on_disk,
}
use cloudreve_desktop.Drive.Fingerprint.{Host, FileHashFingerprint, remote_file_hash_fingerprint}
use cloudreve_desktop.Drive.Changes.{local_has_changes, remote_change, unwrap_or}
use cloudreve_desktop.Drive.SyncPlan.Model.{
  SyncMode, SyncAction, UploadReason, SyncPlan, ExistingRemoteLocalFileDecision, push,
}
use cloudreve_desktop.Drive.SyncPlan.FilePlan.{
  hash_matches, is_conflicting, is_unchanged, plan_both_changed, plan_file_actions,
}
use cloudreve_desktop.Drive.SyncPlan.Build.{
  decide_existing_local_remote_file, decide, Entries, record_decision, plan_path, plan_paths,
  build_sync_plan,
}
use cloudreve_desktop.Drive.SyncPlan.Requests.{All-trivial}
use cloudreve_desktop.Drive.SyncPlan.Content.{Because, Keeps, path_of, All-snoc, plan_entry_lem}

-- The local and the inventory state of a path.
abbrev local_of : Entries → String → LocalFileInfo
local_of entries path = unwrap_or (lookup path entries.local_files) missing

abbrev inventory_of : Entries → String → Option FileMetadata
inventory_of entries path = lookup path entries.inventory_entries

-- An action that may be taken on a path with these states, which is not ignored.
abbrev StandsAt : Host → Entries → String → SyncAction → Type 0
StandsAt host entries path a =
    (host.is_ignored path ≡ false)
    × Keeps host (local_of entries path) (inventory_of entries path) a
    × Because (lookup path entries.remote_files) (local_of entries path) (inventory_of entries path)
        a

-- An action with a reason in the states of its own path.
abbrev pub Stands : Host → Entries → SyncAction → Type 0
Stands host entries a = StandsAt host entries (path_of a) a

All-first :
    (P Q : SyncAction → Type 0) (actions : List SyncAction)
    → All (λ a. P a × Q a) actions
    → All P actions
All-first P Q [] h = tt
All-first P Q (action ∷ actions) (h, hs) = (h.0, All-first P Q actions hs)

module _ (host : Host) (mode : SyncMode) (entries : Entries) where
  record_decision_lem :
      (Q : String → Type 0) (path : String)
      (decision : Option (ExistingRemoteLocalFileDecision × FileResponse)) (plan planned : SyncPlan)
      → host.is_ignored path ≡ false
      → Q path
      → ((r : FileResponse) (x : ExistingRemoteLocalFileDecision)
          → decision ≡ some (x, r)
          → lookup path entries.remote_files ≡ some r)
      → All (λ a. Stands host entries a × Q (path_of a)) plan.actions
      → All (λ a. Stands host entries a × Q (path_of a)) planned.actions
      → All
          (λ a. Stands host entries a × Q (path_of a))
          (record_decision path decision plan planned).actions
  unfolding record_decision
  record_decision_lem Q path none plan planned shown q known before after = after
  record_decision_lem Q path (some (decision, remote)) plan planned shown q known before after =
      All-snoc _ plan.actions _ before ((shown, tt, known remote decision refl), q)

  decide-remote :
      (path : String) (remote : Option FileResponse) (local : Option LocalFileInfo)
      (inventory : Option FileMetadata) (r : FileResponse) (x : ExistingRemoteLocalFileDecision)
      → decide host path remote local inventory ≡ some (x, r)
      → remote ≡ some r
  unfolding decide
  decide-remote path none local inventory r x e = absurd cc
  decide-remote path (some remote) none inventory r x e = absurd cc
  decide-remote path (some remote) (some local) inventory r x e =
      found (decide_existing_local_remote_file host path remote local inventory) e
    where
      chosen :
          Option ExistingRemoteLocalFileDecision
          → Option (ExistingRemoteLocalFileDecision × FileResponse)
      chosen decision = elim decision [ none ↦ none | some d ↦ some (d, remote) ]

      found :
          (decision : Option ExistingRemoteLocalFileDecision)
          → chosen decision ≡ some (x, r)
          → some remote ≡ some r
      found none h = absurd cc
      found (some d) h =
          ap some (ap (λ (q : ExistingRemoteLocalFileDecision × FileResponse). q.1) (some_inj.0 h))

  plan_path_lem :
      (Q : String → Type 0) (path : String) (plan : SyncPlan)
      → Q path
      → All (λ a. Stands host entries a × Q (path_of a)) plan.actions
      → All
          (λ a. Stands host entries a × Q (path_of a))
          (plan_path host mode entries path plan).actions
  unfolding plan_path
  plan_path_lem Q path plan q fine =
      if-rule (λ (p : SyncPlan). All (λ a. Stands host entries a × Q (path_of a)) p.actions)
        (host.is_ignored path) (λ ignored. fine)
        (λ shown.
          record_decision_lem Q path _ plan _ shown q (λ r x. decide-remote path _ _ _ r x) fine
            (plan_entry_lem host path (lookup path entries.remote_files) (local_of entries path)
              (inventory_of entries path) (λ a. Stands host entries a × Q (path_of a))
              (λ a here keeps why.
                subst (λ p. StandsAt host entries p a × Q p) (sym here) ((shown, keeps, why), q))
              mode (lookup path entries.remote_files) plan refl fine))

  plan_paths_lem :
      (Q : String → Type 0) (paths : List String) (plan : SyncPlan)
      → All Q paths
      → All (λ a. Stands host entries a × Q (path_of a)) plan.actions
      → All
          (λ a. Stands host entries a × Q (path_of a))
          (plan_paths host mode entries paths plan).actions
  unfolding plan_paths
  plan_paths_lem Q [] plan q fine = fine
  plan_paths_lem Q (path ∷ paths) plan (here, later) fine =
      plan_paths_lem Q paths (plan_path host mode entries path plan) later
        (plan_path_lem Q path plan here fine)

  -- The same, with what holds of all the paths.
  pub build_sync_plan-keeps_at :
      (Q : String → Type 0) (paths : List String)
      → All Q paths
      → All
          (λ a. Stands host entries a × Q (path_of a))
          (build_sync_plan host mode paths entries).actions
  unfolding build_sync_plan
  build_sync_plan-keeps_at Q paths q = plan_paths_lem Q paths _ q tt

  -- Every action that a synchronisation plans is on a path that is not ignored and has its reason in
  -- the remote, the local and the inventory state of that path. What is recorded, adopted, downloaded or
  -- made a placeholder is the entry that the server has at the path. A file is downloaded over, or its
  -- local bytes are dropped, only where it has no local changes, the remote version is newer than the
  -- last synced one, and the known hashes do not say that both are the same; and it is downloaded only
  -- if it is pinned. An upload is of local changes: of an entry that the server has and that has no
  -- pending conflict, or of a file that the server has not. What is deleted without a look at its
  -- content is missing on the server, and is without local changes, a placeholder not fully on disk, or
  -- a directory that is not a populated placeholder (a plain one too); or it is a placeholder not fully
  -- on disk where the server has a directory in place of a file or the reverse. Only where the kinds
  -- differ so is a path renamed to a conflict copy. A deletion that spares content, and a creation on
  -- the server, are of a populated directory that the server has not.
  pub build_sync_plan-keeps :
      (paths : List String)
      → All (Stands host entries) (build_sync_plan host mode paths entries).actions
  build_sync_plan-keeps paths =
      All-first _ _ _ (build_sync_plan-keeps_at (λ path. Unit {0}) paths (All-trivial paths))

-- The local file's hash is known to be a fingerprint's.
pub hash_agrees : Host → String → Option FileHashFingerprint → Bool
hash_agrees host path none = false
hash_agrees host path (some fingerprint) = hash_matches host path fingerprint

-- The remote changed too, but its content is known to be that of the local file: the local content is
-- on disk and its hash is the remote's.
abbrev pub same_content : Host → String → FileResponse → LocalFileInfo → Option FileMetadata → Bool
same_content host path remote local inventory =
    not (is_unchanged (remote_change host remote inventory))
    && (not (partial_on_disk local)
        && hash_agrees host path (remote_file_hash_fingerprint host remote))

-- What becomes of a file with local changes that exists on both sides.
abbrev pub Resolves :
    Host
    → String
    → FileResponse
    → LocalFileInfo
    → Option FileMetadata
    → SyncPlan
    → SyncPlan
    → Type 0
Resolves host path remote local inventory before after =
    ((is_conflicting inventory ≡ true) × (after ≡ before))
    ⊎ ((is_conflicting inventory ≡ false)
        × (same_content host path remote local inventory ≡ true)
        × (after ≡ push (SyncAction.update_inventory_from_remote path remote false) before))
    ⊎ ((is_conflicting inventory ≡ false)
        × (same_content host path remote local inventory ≡ false)
        × (after ≡ push (SyncAction.queue_upload path UploadReason.remote_mismatch) before))

module _ (host : Host) (path : String) (remote : FileResponse) (local : LocalFileInfo)
    (inventory : Option FileMetadata) where
  both_changed_lem :
      (fingerprint : Option FileHashFingerprint) (plan : SyncPlan)
      → is_conflicting inventory ≡ false
      → is_unchanged (remote_change host remote inventory) ≡ false
      → remote_file_hash_fingerprint host remote ≡ fingerprint
      → Resolves host path remote local inventory plan
          (plan_both_changed host path remote local fingerprint plan)
  unfolding plan_both_changed hash_agrees
  both_changed_lem none plan free moved e =
      inr (inr (free, rw moved (rw e (and_false (not (partial_on_disk local)))), refl))
    where
      and_false : (b : Bool) → (b && false) ≡ false
      and_false b = ground arith
  both_changed_lem (some fingerprint) plan free moved e =
      if-rule (λ p. Resolves host path remote local inventory plan p)
        (not (partial_on_disk local) && hash_matches host path fingerprint)
        (λ same. inr (inl (free, rw moved (rw e same), refl)))
        (λ differs. inr (inr (free, rw moved (rw e differs), refl)))

  -- A file that exists on both sides and has local changes is never downloaded, deleted or
  -- invalidated. While its conflict is pending it waits. Otherwise, exactly if the remote changed too,
  -- the local content is on disk and its hash is the remote's, the remote's metadata is adopted
  -- without touching the content; and in all other cases the file is uploaded.
  pub plan_file_actions-changed :
      (plan : SyncPlan)
      → local_has_changes local inventory ≡ true
      → Resolves host path remote local inventory plan
          (plan_file_actions host path remote local inventory plan)
  unfolding plan_file_actions
  plan_file_actions-changed plan changed =
      if_not-rule P (local_has_changes local inventory) (λ unchanged. absurd cc)
        (λ again.
          if-rule P (is_unchanged (remote_change host remote inventory))
            (λ same.
              if-rule P (is_conflicting inventory) (λ waits. inl (waits, refl))
                (λ free. inr (inr (free, rw same refl, refl))))
            (λ moved.
              if-rule P (is_conflicting inventory) (λ waits. inl (waits, refl))
                (λ free. both_changed_lem _ plan free moved refl)))
    where
      P : SyncPlan → Type 0
      P after = Resolves host path remote local inventory plan after

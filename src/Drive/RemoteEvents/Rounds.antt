-- ===== src/Drive/RemoteEvents/Rounds.antt =====
-- What a round of the loop of `sync_last_presented_parent` (drive/remote_events.rs) does.
use cloudreve_desktop.Prelude.{
  ◌≡◌, refl, Bool, true, false, not, ◌||◌, inr, Option, some, List, arith, if◌then◌else◌,
  Bool-cases, String, ◌⊎◌, inl, none,
}
use cloudreve_desktop.Drive.Files.{LocalFileInfo, is_placeholder, is_folder_populated}
use cloudreve_desktop.Drive.RemoteEvents.{
  FilePath, SyncCommand, Surroundings, Outcome, outside, choose, send, on_existing, visit,
}

-- The directory can be read and has the state.
abbrev pub Found : Surroundings → FilePath → Bool → Type 0
Found s path exists = (info : LocalFileInfo) × (s.info path ≡ inr info) × (info.exists ≡ exists)

module _ (s : Surroundings) (sync_root : FilePath) (local_paths : List FilePath)
    (listening : s.receiver ≡ true) where
  pub visit_missing :
      (child : Option FilePath) (path : FilePath) (above : Outcome)
      → outside sync_root path ≡ false
      → Found s path false
      → visit s sync_root local_paths child path above ≡ above
  unfolding visit
  visit_missing child path above inside (info, e, absent) = rw inside (rw e (rw absent refl))

  pub visit_found :
      (child : Option FilePath) (path : FilePath) (above : Outcome) (info : LocalFileInfo)
      → outside sync_root path ≡ false
      → s.info path ≡ inr info
      → info.exists ≡ true
      → (not (is_placeholder info) || is_folder_populated info) ≡ true
      → visit s sync_root local_paths child path above ≡ inr (some (choose path local_paths child))
  unfolding visit on_existing send
  visit_found child path above info inside e here shown =
      rw inside (rw e (rw shown (rw here (rw listening refl))))

  pub on_existing-cases :
      (child : Option FilePath) (path : FilePath) (info : LocalFileInfo) (c : SyncCommand)
      → on_existing s path local_paths child info ≡ inr (some c)
      → ((not (is_placeholder info) || is_folder_populated info) ≡ true)
        × (c ≡ choose path local_paths child)
  unfolding on_existing send
  on_existing-cases child path info c h =
      elim (Bool-cases (not (is_placeholder info) || is_folder_populated info)) [
        | inl shown ↦ (shown, ground arith)
        | inr hidden ↦ absurd (ground arith)
      ]

  -- The outcome of a round tells which of its cases it was.
  pub visit-cases :
      (child : Option FilePath) (path : FilePath) (above : Outcome) (c : SyncCommand)
      → visit s sync_root local_paths child path above ≡ inr (some c)
      → (outside sync_root path ≡ false)
        × ((Found s path false × (above ≡ inr (some c)))
            ⊎ ((info : LocalFileInfo) × (s.info path ≡ inr info)
                × (info.exists ≡ true)
                × ((not (is_placeholder info) || is_folder_populated info) ≡ true)
                × (c ≡ choose path local_paths child)))
  unfolding visit
  visit-cases child path above c e = elim (Bool-cases (outside sync_root path)) [
    | inl out ↦ absurd (no_command (rw out at e))
    | inr inside ↦ (inside, looked (s.info path) refl (rw inside at e))
  ]
    where
      no_command : ◌≡◌ {A = Outcome} (inr none) (inr (some c)) → ⊥
      no_command h = cc

      shown_cases :
          (info : LocalFileInfo)
          → on_existing s path local_paths child info ≡ inr (some c)
          → ((not (is_placeholder info) || is_folder_populated info) ≡ true)
            × (c ≡ choose path local_paths child)
      shown_cases info h = on_existing-cases child path info c h

      looked :
          (found : String ⊎ LocalFileInfo)
          → s.info path ≡ found
          → elim found as (λ _. Outcome) [
            | inl error ↦ inl error
            | inr info ↦ if info.exists then on_existing s path local_paths child info else above
          ]
            ≡ inr (some c)
          → (Found s path false × (above ≡ inr (some c)))
            ⊎ ((info : LocalFileInfo) × (s.info path ≡ inr info)
                × (info.exists ≡ true)
                × ((not (is_placeholder info) || is_folder_populated info) ≡ true)
                × (c ≡ choose path local_paths child))
      looked (inl error) q h = absurd cc
      looked (inr info) q h = elim (Bool-cases info.exists) [
        | inl here ↦
            let (shown, chosen) = shown_cases info (exists_branch info here h) in
            inr (info, q, here, shown, chosen)
        | inr absent ↦ inl ((info, q, absent), absent_branch info absent h)
      ]
        where
          exists_branch :
              (info : LocalFileInfo)
              → info.exists ≡ true
              → (if info.exists then on_existing s path local_paths child info else above)
                ≡ inr (some c)
              → on_existing s path local_paths child info ≡ inr (some c)
          exists_branch info here h = cc

          absent_branch :
              (info : LocalFileInfo)
              → info.exists ≡ false
              → (if info.exists then on_existing s path local_paths child info else above)
                ≡ inr (some c)
              → above ≡ inr (some c)
          absent_branch info absent h = ground arith

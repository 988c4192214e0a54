-- ===== src/Drive/RemoteEvents/Inside.antt =====
-- Whatever the server sends, only paths below the sync root are synchronised.
use cloudreve_desktop.Prelude.{In, String, ◌≡◌, true, List, ◌∷◌}
use cloudreve_desktop.Drive.RemoteEvents.{FilePath, SyncCommand, Surroundings, starts_with}
use cloudreve_desktop.Drive.RemoteEvents.Groups.{IsOrder}

-- The paths of a group lie in its directory.
abbrev Children : FilePath × List FilePath → Type 0
Children (parent, paths) = (p : FilePath) → In p paths → (name : String) × (p ≡ name ∷ parent)

module _ (s : Surroundings) (sync_root : FilePath) (order : IsOrder s)
    (listening : s.receiver ≡ true) where
  abbrev Inside : List SyncCommand → Type 0
  Inside commands =
      (c : SyncCommand) (p : FilePath)
      → In c commands
      → In p c.local_paths
      → starts_with p sync_root ≡ true

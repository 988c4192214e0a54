-- ===== src/Drive/RemoteEvents.antt =====
-- drive/remote_events.rs, the build for Windows and Linux: from the server's file events to the
-- commands that synchronise the affected paths. A path is the list of its components, the innermost
-- first, so that the parent of a path is its tail; a component may be `..`, and the outermost one is
-- the prefix with the root. How the standard library joins a remote path to a local one is a parameter.
pub mod Rounds
pub mod Presented
pub mod Groups
pub mod Inside
pub mod Listen
use cloudreve_desktop.Prelude.{
  if◌then◌else◌, filter_by, ltb, length, String, ◌≡◌, ◌↔◌, Bool, true, false, not, ◌&&◌, ◌||◌, ◌⊎◌,
  inl, inr, Option, none, some, List, [], ◌∷◌, ◌++◌, str_eq, eq_iff, arith,
}
use cloudreve_desktop.Dict.{Eq, string_eq}
use cloudreve_desktop.Dict.Groups.{group_by}
use cloudreve_desktop.Drive.Files.{LocalFileInfo, is_placeholder, is_folder_populated}
use cloudreve_desktop.Drive.SyncPlan.Model.{SyncMode}

abbrev pub FilePath : Type 0
FilePath = List String

abbrev pub path_beq : FilePath → FilePath → Bool
path_beq [] [] = true
path_beq [] (d ∷ q) = false
path_beq (c ∷ p) [] = false
path_beq (c ∷ p) (d ∷ q) = let rest = path_beq p q in str_eq c d && rest

pub path_beq_iff : (p q : FilePath) → (path_beq p q ≡ true) ↔ (p ≡ q)
path_beq_iff [] [] = ground arith
path_beq_iff [] (d ∷ q) = ground arith
path_beq_iff (c ∷ p) [] = ground arith
path_beq_iff (c ∷ p) (d ∷ q) = ground (arith, eq_iff c d, path_beq_iff p q)

instance abbrev pub path_eq : Eq FilePath
path_eq = record { beq = path_beq; beq_iff = path_beq_iff }

-- `Path::starts_with`
unfoldable pub starts_with : FilePath → FilePath → Bool
starts_with [] root = path_beq [] root
starts_with (c ∷ p) root = let above = starts_with p root in path_beq (c ∷ p) root || above

-- `current_path == sync_root.parent().unwrap_or(Path::new(""))`
unfoldable pub is_above : FilePath → FilePath → Bool
is_above current [] = path_beq current []
is_above current (c ∷ root) = path_beq current root

pub data FileEventType : Type 0 where
  create modify rename delete : FileEventType

pub record FileEventData : Type 0 where
  pub event_type : FileEventType
  pub from : String
  pub to : String

-- `MountCommand::Sync`
pub record SyncCommand : Type 0 where
  pub local_paths : List FilePath
  pub mode : SyncMode
  pub user_initiated : Bool

-- `sync_root.join(path.trim_start_matches('/').split('/').collect::<PathBuf>())`, which is the path
-- alone where that is absolute; what the file system answers while a batch of events is handled;
-- whether the receiver of commands is still there; and the iteration order of a hash map.
pub record Surroundings : Type 0 where
  pub join : FilePath → String → FilePath
  pub info : FilePath → String ⊎ LocalFileInfo
  pub receiver : Bool
  pub order : List (FilePath × List FilePath) → List (FilePath × List FilePath)

unfoldable pub command : SyncMode → List FilePath → SyncCommand
command mode paths = record { local_paths = paths; mode = mode; user_initiated = false }

-- What to synchronise below a directory that exists and is populated.
unfoldable pub choose : FilePath → List FilePath → Option FilePath → SyncCommand
unfolding command
choose current local_paths (some child_path) = command SyncMode.path_only (child_path ∷ [])
choose current local_paths none =
    if ltb 1 (length local_paths)
    then command SyncMode.path_and_first_layer (current ∷ [])
    else command SyncMode.path_only local_paths

-- The result of `sync_last_presented_parent`: an error, or the command, if one was sent.
abbrev pub Outcome : Type 0
Outcome = String ⊎ Option SyncCommand

unfoldable pub send : Surroundings → SyncCommand → Outcome
send s c = if s.receiver then inr (some c) else inl "failed to send sync command"

unfoldable pub on_existing :
    Surroundings → FilePath → List FilePath → Option FilePath → LocalFileInfo → Outcome
unfolding send choose
on_existing s current local_paths child info =
    if not (is_placeholder info) || is_folder_populated info
    then send s (choose current local_paths child)
    else inr none

-- The guard of the loop.
unfoldable pub outside : FilePath → FilePath → Bool
unfolding starts_with is_above
outside sync_root current = not (starts_with current sync_root) || is_above current sync_root

-- One round of the loop, with the rounds above it.
unfoldable pub visit :
    Surroundings → FilePath → List FilePath → Option FilePath → FilePath → Outcome → Outcome
unfolding outside on_existing
visit s sync_root local_paths child current above =
    if outside sync_root current then inr none else elim (s.info current) [
      | inl error ↦ inl error
      | inr info ↦ if info.exists then on_existing s current local_paths child info else above
    ]

-- The loop walks up from a path; `child` is the path below that it came from.
unfoldable pub walk_up :
    Surroundings → FilePath → List FilePath → Option FilePath → FilePath → Outcome
unfolding visit
walk_up s sync_root local_paths child [] = visit s sync_root local_paths child [] (inr none)
walk_up s sync_root local_paths child (c ∷ parent) =
    let above = walk_up s sync_root local_paths (some (c ∷ parent)) parent in
    visit s sync_root local_paths child (c ∷ parent) above

unfoldable pub sync_last_presented_parent :
    Surroundings → FilePath → FilePath → List FilePath → Outcome
unfolding walk_up
sync_last_presented_parent s sync_root initial_parent local_paths =
    walk_up s sync_root local_paths none initial_parent

-- The commands that the groups of a batch send, in turn; an error of a group is only logged.
unfoldable pub sent : Outcome → List SyncCommand
sent (inl error) = []
sent (inr none) = []
sent (inr (some c)) = c ∷ []

unfoldable pub sync_groups :
    Surroundings → FilePath → List (FilePath × List FilePath) → List SyncCommand
unfolding sent sync_last_presented_parent
sync_groups s sync_root [] = []
sync_groups s sync_root ((parent, paths) ∷ groups) =
    sent (sync_last_presented_parent s sync_root parent paths) ++ sync_groups s sync_root groups

-- `local_path.parent()` is there for all but the root of the file system.
abbrev pub with_parent : List FilePath → List (FilePath × FilePath)
with_parent [] = []
with_parent ([] ∷ paths) = with_parent paths
with_parent ((c ∷ parent) ∷ paths) = (parent, c ∷ parent) ∷ with_parent paths

abbrev pub first_of : FilePath × FilePath → FilePath
first_of (parent, path) = parent

abbrev pub second_of : FilePath × FilePath → FilePath
second_of (parent, path) = path

unfoldable pub group_by_parent : List FilePath → List (FilePath × List FilePath)
unfolding group_by
group_by_parent paths = group_by first_of second_of (with_parent paths) []

-- `LocalFileInfo::from_path` gives an existing file.
unfoldable pub exists_locally : String ⊎ LocalFileInfo → Bool
exists_locally (inl error) = false
exists_locally (inr info) = info.exists

unfoldable pub from_paths : Surroundings → FilePath → List FileEventData → List FilePath
from_paths s sync_root [] = []
from_paths s sync_root (event ∷ events) =
    s.join sync_root event.from ∷ from_paths s sync_root events

unfoldable pub to_paths : Surroundings → FilePath → List FileEventData → List FilePath
to_paths s sync_root [] = []
to_paths s sync_root (event ∷ events) = s.join sync_root event.to ∷ to_paths s sync_root events

unfoldable pub existing : Surroundings → List FilePath → List FilePath
unfolding exists_locally
existing s [] = []
existing s (path ∷ paths) =
    let rest = existing s paths in if exists_locally (s.info path) then path ∷ rest else rest

unfoldable pub handle_create_update_events :
    Surroundings → FilePath → List FileEventData → List SyncCommand
unfolding sync_groups group_by_parent from_paths
handle_create_update_events s sync_root events =
    sync_groups s sync_root (s.order (group_by_parent (from_paths s sync_root events)))

unfoldable pub handle_delete_events :
    Surroundings → FilePath → List FileEventData → List SyncCommand
unfolding sync_groups group_by_parent from_paths existing
handle_delete_events s sync_root events =
    sync_groups s sync_root (s.order (group_by_parent (existing s (from_paths s sync_root events))))

unfoldable pub handle_rename_events :
    Surroundings → FilePath → List FileEventData → List SyncCommand
unfolding sync_groups group_by_parent from_paths to_paths existing
handle_rename_events s sync_root events =
    sync_groups s sync_root (s.order (group_by_parent (existing s (from_paths s sync_root events))))
    ++ sync_groups s sync_root (s.order (group_by_parent (to_paths s sync_root events)))

unfoldable pub is_create_update : FileEventData → Bool
is_create_update event = elim event.event_type [
  | FileEventType.create ↦ true
  | FileEventType.modify ↦ true
  | _ ↦ false
]

unfoldable pub is_rename : FileEventData → Bool
is_rename event = elim event.event_type [ FileEventType.rename ↦ true | _ ↦ false ]

unfoldable pub is_delete : FileEventData → Bool
is_delete event = elim event.event_type [ FileEventType.delete ↦ true | _ ↦ false ]

-- A kind of event that did not occur is not handled.
unfoldable pub handle_some :
    (List FileEventData → List SyncCommand) → List FileEventData → List SyncCommand
handle_some handle [] = []
handle_some handle (event ∷ events) = handle (event ∷ events)

-- The commands of a batch: those of its creations and modifications, of its deletions, of its renames.
unfoldable pub handle_file_events : Surroundings → FilePath → List FileEventData → List SyncCommand
unfolding handle_some handle_create_update_events handle_delete_events handle_rename_events
    is_create_update is_rename is_delete
handle_file_events s sync_root events =
    handle_some (handle_create_update_events s sync_root) (filter_by is_create_update events)
    ++ (handle_some (handle_delete_events s sync_root) (filter_by is_delete events)
        ++ handle_some (handle_rename_events s sync_root) (filter_by is_rename events))

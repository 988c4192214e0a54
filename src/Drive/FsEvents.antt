-- ===== src/Drive/FsEvents.antt =====
-- `group_fs_events` of drive/sync.rs: file system events grouped by the first level of their kind. `Kind`
-- stands for the kinds of the notify crate that the code never looks into, of which `unknown` is Any.
use cloudreve_desktop.Prelude.{List, [], ◌==◌, ℕ, if◌then◌else◌}
use cloudreve_desktop.Dict.{Eq}
use cloudreve_desktop.Dict.Groups.{group_by}
use cloudreve_desktop.Drive.EventBlocker.{
  EventKind, ModifyKind, any_event, access, create, remove_event, modify, other_event, name, both,
  rename_mode,
}

module _ {Kind : Type 0} (unknown : Kind) where
  -- The rename mode of a renaming is kept if it is `Both`.
  unfoldable pub normalize_event_kind : EventKind Kind → EventKind Kind
  normalize_event_kind any_event = any_event
  normalize_event_kind (access k) = access unknown
  normalize_event_kind (create k) = create unknown
  normalize_event_kind (modify (name both)) = modify (name both)
  normalize_event_kind (modify (name (rename_mode k))) = modify (ModifyKind.modify_kind unknown)
  normalize_event_kind (modify (ModifyKind.modify_kind k)) = modify (ModifyKind.modify_kind unknown)
  normalize_event_kind (remove_event k) = remove_event unknown
  normalize_event_kind other_event = other_event

  -- A debounced event has an event of a kind.
  unfoldable pub group_fs_events :
      {Event : Type 0} ⦃e : Eq (EventKind Kind)⦄
      → (Event → EventKind Kind)
      → List Event
      → List (EventKind Kind × List Event)
  unfolding group_by normalize_event_kind
  group_fs_events kind events =
      group_by (λ event. normalize_event_kind (kind event)) (λ event. event) events []

-- The sort of a kind: renamings of which both paths are known stand apart from other modifications.
abbrev pub sort : {Kind : Type 0} → EventKind Kind → ℕ
sort any_event = 0
sort (access k) = 1
sort (create k) = 2
sort (modify (name both)) = 3
sort (modify (name (rename_mode k))) = 4
sort (modify (ModifyKind.modify_kind k)) = 4
sort (remove_event k) = 5
sort other_event = 6

module _ {Kind : Type 0} (unknown : Kind) where
  -- The kind that stands for a sort.
  abbrev general : ℕ → EventKind Kind
  general n =
      if n == 0
      then any_event
      else if n == 1
      then access unknown
      else if n == 2
      then create unknown
      else if n == 3
      then modify (name both)
      else if n == 4
      then modify (ModifyKind.modify_kind unknown)
      else if n == 5
      then remove_event unknown
      else other_event

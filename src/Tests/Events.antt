-- ===== src/Tests/Events.antt =====
-- Remote events, file system events and share shortcuts at concrete inputs.
use cloudreve_desktop.Prelude.{
  if◌then◌else◌, In, any, drop, ℕ, zero, suc, ◌<◌, ◌==◌, String, ◌≡◌, refl, ◌↔◌, Bool, true, false,
  not, ◌&&◌, inl, inr, none, some, List, [], ◌∷◌, ◌<>◌, arith, str_eq, ◌++◌,
}
use cloudreve_desktop.Dict.{Eq, lookup, insert}
use cloudreve_desktop.Drive.Files.{LocalFileInfo, PinState, is_placeholder}
use cloudreve_desktop.Drive.SyncPlan.Model.{SyncMode}
use cloudreve_desktop.Drive.EventBlocker.{
  EventKind, ModifyKind, any_event, access, create, remove_event, modify, other_event, name, both,
  rename_mode,
}
use cloudreve_desktop.Drive.FsEvents.{group_fs_events}
use cloudreve_desktop.Drive.RemoteEvents.{
  FilePath, FileEventType, FileEventData, Surroundings, command, choose, outside,
  sync_last_presented_parent, handle_file_events, is_create_update,
}
use cloudreve_desktop.Drive.RemoteEvents.Presented.{
  IsNearest, below, sync_last_presented_parent-IsNearest,
}
use cloudreve_desktop.Drive.RemoteEvents.Groups.{IsOrder, handle_file_events-covers}
use cloudreve_desktop.Drive.RemoteEvents.Listen.{
  FileEvent, NextEvent, Reported, listen_remote_events, listen_remote_events-result,
}
use cloudreve_desktop.Drive.Shortcuts.{
  is_search, join_all, CrUri, Uris, Scan, inspect, resolve_with_lookup,
}
use cloudreve_desktop.Drive.Shortcuts.Redirects.{answer, IsRedirected, inspect-IsDirect}
use cloudreve_desktop.Drive.Shortcuts.Resolved.{
  IsResolved, Leads, resolve_with_lookup-IsResolved, resolve_with_lookup-Leads,
}
use cloudreve_desktop.Drive.Shortcuts.Rebase.{
  rebase_content_uri, Moves, rebase_content_uri-Moves, rebase_content_uri-inverse,
}

abbrev folder : Bool → LocalFileInfo
folder exists = record {
  exists = exists;
  is_directory = true;
  file_size = none;
  last_modified = none;
  placeholder_state = none;
  pin_state = PinState.unspecified;
}

-- The sync root /r exists, its directory /r/a does not.
abbrev root : FilePath
root = "r" ∷ []

-- A remote path of ordinary names stays below the root, an absolute one does not.
abbrev join_path : FilePath → String → FilePath
join_path base path =
    if str_eq path "/a/f"
    then "f" ∷ "a" ∷ base
    else if str_eq path "/D:/x"
    then "x" ∷ "D:" ∷ []
    else base

abbrev surroundings : Surroundings
surroundings = record {
  join = join_path;
  info = λ path. inr (folder (not (any (str_eq "a") path)));
  receiver = true;
  order = λ groups. groups;
}

in-IsOrder : IsOrder surroundings
in-IsOrder = record { all_given = λ g m h. h; only_given = λ g m h. h }

abbrev created : FileEventData
created = record { event_type = FileEventType.create; from = "/a/f"; to = "" }

inside : (m : ℕ) → m < 2 → outside root (drop m ("a" ∷ "r" ∷ [])) ≡ false
unfolding outside
inside zero h = refl
inside (suc zero) h = refl
inside (suc (suc m)) h = absurd (omega arith)

absent :
    (m : ℕ)
    → m < 1
    → (info : LocalFileInfo) × (surroundings.info (drop m ("a" ∷ "r" ∷ [])) ≡ inr info)
      × (info.exists ≡ false)
absent zero h = (folder false, refl, refl)
absent (suc m) h = absurd (omega arith)

is_created : is_create_update created ≡ true
unfolding is_create_update
is_created = refl

-- Below /r/a nothing exists; /r is the nearest directory.
nearest : IsNearest surroundings root ("a" ∷ "r" ∷ []) 1
unfolding is_placeholder
nearest = record {
  inside = inside;
  missing_below = absent;
  info = folder true;
  readable = refl;
  exists = refl;
  presented = refl;
  in_range = omega arith;
}

sync_last_presented_parent-IsNearest_example :
    (sync_last_presented_parent surroundings root ("a" ∷ "r" ∷ []) (("f" ∷ "a" ∷ "r" ∷ []) ∷ [])
      ≡ inr (some (command SyncMode.path_only (("a" ∷ "r" ∷ []) ∷ []))))
    ↔ ((n : ℕ) × IsNearest surroundings root ("a" ∷ "r" ∷ []) n
        × (command SyncMode.path_only (("a" ∷ "r" ∷ []) ∷ [])
            ≡ choose
                (drop n ("a" ∷ "r" ∷ []))
                (("f" ∷ "a" ∷ "r" ∷ []) ∷ [])
                (below none ("a" ∷ "r" ∷ []) n)))
sync_last_presented_parent-IsNearest_example =
    sync_last_presented_parent-IsNearest surroundings root (("f" ∷ "a" ∷ "r" ∷ []) ∷ []) refl
      ("a" ∷ "r" ∷ []) (command SyncMode.path_only (("a" ∷ "r" ∷ []) ∷ []))

handle_file_events-covers_example :
    (paths : List FilePath) × In ("f" ∷ "a" ∷ "r" ∷ []) paths
    × In
        (choose ("r" ∷ []) paths (some ("a" ∷ "r" ∷ [])))
        (handle_file_events surroundings root (created ∷ []))
handle_file_events-covers_example =
    handle_file_events-covers surroundings root (created ∷ []) created "f" ("a" ∷ "r" ∷ []) 1
      in-IsOrder refl (inl refl) is_created refl nearest

-- The batch sends one command, for the directory that is missing.
handle_file_events_run :
    handle_file_events surroundings root (created ∷ [])
    ≡ command SyncMode.path_only (("a" ∷ "r" ∷ []) ∷ []) ∷ []
unfolding handle_file_events lookup insert is_placeholder
handle_file_events_run = refl

abbrev absolute : FileEventData
absolute = record { event_type = FileEventType.create; from = "/D:/x"; to = "" }

-- Of an event outside the sync root no command is sent.
handle_file_events_outside :
    handle_file_events surroundings root (absolute ∷ (created ∷ []))
    ≡ command SyncMode.path_only (("a" ∷ "r" ∷ []) ∷ []) ∷ []
unfolding handle_file_events lookup insert is_placeholder
handle_file_events_outside = refl

listen_remote_events-result_example : Reported true (
    listen_remote_events root true
      ((surroundings, NextEvent.next FileEvent.subscribed)
        ∷ ((surroundings, NextEvent.failed) ∷ []))
      (record { event_push_subscribed = false; commands = [] }))
listen_remote_events-result_example =
    listen_remote_events-result root
      ((surroundings, NextEvent.next FileEvent.subscribed)
        ∷ ((surroundings, NextEvent.failed) ∷ []))
      (record { event_push_subscribed = false; commands = [] })

-- Two kinds of events.
abbrev tag : EventKind ℕ → ℕ × ℕ
tag any_event = (0, 0)
tag (access k) = (1, k)
tag (create k) = (2, k)
tag (remove_event k) = (3, k)
tag (modify (name both)) = (4, 0)
tag (modify (name (rename_mode k))) = (5, k)
tag (modify (ModifyKind.modify_kind k)) = (6, k)
tag other_event = (7, 0)

abbrev kind_beq : EventKind ℕ → EventKind ℕ → Bool
kind_beq a b = (tag a).0 == (tag b).0 && (tag a).1 == (tag b).1

kind_beq_iff : (a b : EventKind ℕ) → (kind_beq a b ≡ true) ↔ (a ≡ b)
kind_beq_iff a b = (λ h. same a b h, λ h. rw h (ground arith))
  where
    same : (a b : EventKind ℕ) → kind_beq a b ≡ true → a ≡ b
    same a b h = ground arith

instance abbrev kind_eq : Eq (EventKind ℕ)
kind_eq = record { beq = kind_beq; beq_iff = kind_beq_iff }

abbrev kinds : List (EventKind ℕ)
kinds = create 3 ∷ (modify (name both) ∷ (create 5 ∷ (modify (name (rename_mode 2)) ∷ [])))

group_fs_events_run :
    group_fs_events 0 (λ k. k) kinds
    ≡ (create 0, create 3 ∷ (create 5 ∷ []))
      ∷ ((modify (name both), modify (name both) ∷ [])
          ∷ ((modify (ModifyKind.modify_kind 0), modify (name (rename_mode 2)) ∷ []) ∷ []))
unfolding group_fs_events lookup insert
group_fs_events_run = refl

-- cloudreve://my/Shared is a shortcut to the root of a received share.
abbrev shared : CrUri
shared = record { authority = "my"; elements = "Shared" ∷ ("f" ∷ []); query = none }

abbrev target : CrUri
target = record { authority = "in@shared_with_me"; elements = "f" ∷ []; query = none }

abbrev join : List String → String
join [] = ""
join (element ∷ elements) = "/" <> (element <> join elements)

abbrev print : CrUri → String
print uri = uri.authority <> join uri.elements

abbrev uris : Uris
uris = record {
  new = λ s.
      if str_eq s "my/Shared/f"
      then some shared
      else if str_eq s "in"
      then some (record { authority = "in@shared_with_me"; elements = []; query = none })
      else none;
  to_string = print;
  has_pairs = λ query. elim query [ none ↦ false | some q ↦ true ];
  lookup = λ s. inr (if str_eq s "my/Shared" then some "in" else none);
}

nothing_before :
    (shorter : List String) (e : String) (left : List String)
    → [] ≡ shorter ++ e ∷ left
    → answer uris shared (shorter ++ e ∷ []) ≡ inr none
nothing_before [] e left split = absurd cc
nothing_before (x ∷ shorter) e left split = absurd cc

redirects : IsRedirected uris true shared target
unfolding is_search join_all
redirects = record {
  prefix = [];
  element = "Shared";
  rest = "f" ∷ [];
  goal = "in";
  shared = record { authority = "in@shared_with_me"; elements = []; query = none };
  split = refl;
  inspected = refl;
  shortest = nothing_before;
  leads = refl;
  reads = refl;
  no_search = refl;
  joined = refl;
}

ends : inspect uris true target ≡ Scan.none_redirected
unfolding inspect
ends = refl

chain : Leads uris true 1 [] shared "in@shared_with_me/f"
chain =
    Leads.redirect target refl redirects
      (Leads.arrived refl (inspect-IsDirect uris true target ends) refl)

resolve_with_lookup-Leads_example :
    resolve_with_lookup uris "my/Shared/f" true ≡ inr "in@shared_with_me/f"
resolve_with_lookup-Leads_example =
    resolve_with_lookup-Leads uris true "my/Shared/f" shared 1 "in@shared_with_me/f" refl chain
      (omega arith)

resolve_with_lookup-IsResolved_example : IsResolved uris true "in@shared_with_me/f"
resolve_with_lookup-IsResolved_example =
    resolve_with_lookup-IsResolved uris true "my/Shared/f" "in@shared_with_me/f"
      resolve_with_lookup-Leads_example

rebase_content_uri-Moves_example :
    (rebase_content_uri "s/a/f" "s/a" "t" ≡ some "t/f") ↔ Moves "s/a/f" "s/a" "t" "t/f"
rebase_content_uri-Moves_example = rebase_content_uri-Moves "s/a/f" "s/a" "t" "t/f"

rebase_content_uri_run : rebase_content_uri "s/a/f" "s/a" "t" ≡ some "t/f"
unfolding rebase_content_uri
rebase_content_uri_run = refl

-- A sibling with a longer name is not below the root.
rebase_content_uri_sibling : rebase_content_uri "s/ab/f" "s/a" "t" ≡ none
unfolding rebase_content_uri
rebase_content_uri_sibling = refl

rebase_content_uri-inverse_example : rebase_content_uri "t/f" "t" "s/a" ≡ some "s/a/f"
rebase_content_uri-inverse_example =
    rebase_content_uri-inverse "s/a/f" "s/a" "t" "t/f" rebase_content_uri_run

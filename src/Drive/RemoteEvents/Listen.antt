-- ===== src/Drive/RemoteEvents/Listen.antt =====
-- `listen_remote_events` of drive/remote_events.rs: one connection, over the messages that it brings,
-- each with the surroundings at that time.
use cloudreve_desktop.Prelude.{
  Bool, true, false, ◌||◌, ◌≡◌, refl, Option, none, some, List, [], ◌∷◌, ◌++◌,
}
use cloudreve_desktop.Drive.Backoff.{ListenResult, error, reconnect_required, stream_ended}
use cloudreve_desktop.Drive.SyncPlan.Model.{SyncMode}
use cloudreve_desktop.Drive.RemoteEvents.{
  FilePath, FileEventData, SyncCommand, Surroundings, command, handle_file_events,
}

pub data FileEvent : Type 0 where
  resumed subscribed keep_alive reconnect : FileEvent
  event : List FileEventData → FileEvent

-- The outcome of waiting for the next event: none within EVENT_STREAM_IDLE_TIMEOUT_SECS, one, the
-- end of the stream, or an error.
pub data NextEvent : Type 0 where
  idle : NextEvent
  next : FileEvent → NextEvent
  ended : NextEvent
  failed : NextEvent

-- `event_push_subscribed` of the drive, and the commands that were sent.
pub record Push : Type 0 where
  pub event_push_subscribed : Bool
  pub commands : List SyncCommand

unfoldable pub set_event_push_subscribed : Bool → Push → Push
set_event_push_subscribed value p = record p { event_push_subscribed = value }

-- A command whose receiver is gone is lost; that is ignored.
unfoldable pub send_full_sync : Surroundings → FilePath → Push → Push
unfolding command
send_full_sync s sync_path p = elim s.receiver [
  | true ↦ record p {
    commands = p.commands ++ command SyncMode.full_hierarchy (sync_path ∷ []) ∷ [];
  }
  | false ↦ p
]

-- The loop, over `was_connected`; `none` is a connection that still waits for its next event.
unfoldable pub listen :
    FilePath → Bool → List (Surroundings × NextEvent) → Push → Option ListenResult × Push
unfolding set_event_push_subscribed send_full_sync
listen sync_path was_connected [] p = (none, p)
listen sync_path was_connected ((s, NextEvent.idle) ∷ rest) p =
    (some reconnect_required, set_event_push_subscribed false p)
listen sync_path was_connected ((s, NextEvent.next (FileEvent.event events)) ∷ rest) p =
    listen sync_path was_connected rest
      (record p { commands = p.commands ++ handle_file_events s sync_path events })
listen sync_path was_connected ((s, NextEvent.next FileEvent.resumed) ∷ rest) p =
    listen sync_path true rest (set_event_push_subscribed true p)
listen sync_path was_connected ((s, NextEvent.next FileEvent.subscribed) ∷ rest) p =
    listen sync_path true rest (send_full_sync s sync_path (set_event_push_subscribed true p))
listen sync_path was_connected ((s, NextEvent.next FileEvent.keep_alive) ∷ rest) p =
    listen sync_path was_connected rest p
listen sync_path was_connected ((s, NextEvent.next FileEvent.reconnect) ∷ rest) p =
    (some reconnect_required, set_event_push_subscribed false p)
listen sync_path was_connected ((s, NextEvent.ended) ∷ rest) p =
    (some stream_ended, set_event_push_subscribed false p)
listen sync_path was_connected ((s, NextEvent.failed) ∷ rest) p =
    (some (error was_connected), set_event_push_subscribed false p)

-- A connection that cannot be opened never was connected.
unfoldable pub listen_remote_events :
    FilePath → (opened : Bool) → List (Surroundings × NextEvent) → Push → Option ListenResult × Push
unfolding listen
listen_remote_events sync_path false messages p = (some (error false), p)
listen_remote_events sync_path true messages p = listen sync_path false messages p

-- The messages before the first one that ends the connection.
abbrev pub announces : List (Surroundings × NextEvent) → Bool
announces [] = false
announces ((s, NextEvent.next FileEvent.resumed) ∷ rest) = true
announces ((s, NextEvent.next FileEvent.subscribed) ∷ rest) = true
announces ((s, NextEvent.next FileEvent.keep_alive) ∷ rest) = announces rest
announces ((s, NextEvent.next (FileEvent.event events)) ∷ rest) = announces rest
announces ((s, NextEvent.next FileEvent.reconnect) ∷ rest) = false
announces ((s, NextEvent.idle) ∷ rest) = false
announces ((s, NextEvent.ended) ∷ rest) = false
announces ((s, NextEvent.failed) ∷ rest) = false

-- What a result says of the connection.
abbrev pub Reported : Bool → Option ListenResult × Push → Type 0
Reported announced (none, p) = Unit
Reported announced (some (error was_connected), p) =
    (was_connected ≡ announced) × (p.event_push_subscribed ≡ false)
Reported announced (some result, p) = p.event_push_subscribed ≡ false

listen-Reported :
    (sync_path : FilePath) (was_connected : Bool) (messages : List (Surroundings × NextEvent))
    (p : Push)
    → Reported (was_connected || announces messages) (listen sync_path was_connected messages p)
unfolding listen set_event_push_subscribed
listen-Reported sync_path w [] p = tt
listen-Reported sync_path w ((s, NextEvent.idle) ∷ rest) p = refl
listen-Reported sync_path w ((s, NextEvent.next (FileEvent.event events)) ∷ rest) p =
    listen-Reported sync_path w rest _
listen-Reported sync_path true ((s, NextEvent.next FileEvent.resumed) ∷ rest) p =
    listen-Reported sync_path true rest _
listen-Reported sync_path false ((s, NextEvent.next FileEvent.resumed) ∷ rest) p =
    listen-Reported sync_path true rest _
listen-Reported sync_path true ((s, NextEvent.next FileEvent.subscribed) ∷ rest) p =
    listen-Reported sync_path true rest _
listen-Reported sync_path false ((s, NextEvent.next FileEvent.subscribed) ∷ rest) p =
    listen-Reported sync_path true rest _
listen-Reported sync_path w ((s, NextEvent.next FileEvent.keep_alive) ∷ rest) p =
    listen-Reported sync_path w rest p
listen-Reported sync_path w ((s, NextEvent.next FileEvent.reconnect) ∷ rest) p = refl
listen-Reported sync_path w ((s, NextEvent.ended) ∷ rest) p = refl
listen-Reported sync_path true ((s, NextEvent.failed) ∷ rest) p = (refl, refl)
listen-Reported sync_path false ((s, NextEvent.failed) ∷ rest) p = (refl, refl)

-- However a connection ends, the drive no longer counts as subscribed to events; and an error of
-- a connection that was opened says that it was connected exactly if the server had announced a new
-- or a resumed subscription before.
pub listen_remote_events-result :
    (sync_path : FilePath) (messages : List (Surroundings × NextEvent)) (p : Push)
    → Reported (announces messages) (listen_remote_events sync_path true messages p)
unfolding listen_remote_events
listen_remote_events-result sync_path messages p = listen-Reported sync_path false messages p

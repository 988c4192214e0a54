-- ===== src/Drive/Backoff.antt =====
-- drive/remote_events.rs: the reconnection delays of the remote event listener. Delays are whole
-- seconds; the network is the list of results that `listen_remote_events` returns in turn.
pub mod Delays
use cloudreve_desktop.Prelude.{ℕ, ◌+◌, ◌*◌, ◌%◌, ◌^◌, min, Bool, true, false, List, [], ◌∷◌}

abbrev pub initial_backoff_secs : ℕ
initial_backoff_secs = 1

abbrev pub max_backoff_secs : ℕ
max_backoff_secs = 32

pub record BackoffState : Type 0 where
  pub retry_count : ℕ  -- u32
  pub current_delay : ℕ

pub new : BackoffState
new = record { retry_count = 0; current_delay = initial_backoff_secs }

pub reset : BackoffState → BackoffState
reset s = record { retry_count = 0; current_delay = initial_backoff_secs }

-- The delay to wait now, and the state for the next failure.
pub next_delay : BackoffState → ℕ × BackoffState
next_delay s = (
  s.current_delay,
  record {
    retry_count = (s.retry_count + 1) % 2 ^ 32;
    current_delay = min (s.current_delay * 2) max_backoff_secs;
  },
)

pub data ListenResult : Type 0 where
  error : Bool → ListenResult  -- was_connected
  reconnect_required stream_ended : ListenResult

-- One round of the loop of `process_remote_events`: the seconds slept, if it sleeps, and the state.
on_error : Bool → BackoffState → ℕ × BackoffState
unfolding reset next_delay
on_error true s = next_delay (reset s)
on_error false s = next_delay s

-- The sleeps that follow a sequence of results, in order, and the state after it.
pub process_remote_events : BackoffState → List ListenResult → List ℕ × BackoffState
unfolding on_error
process_remote_events s [] = ([], s)
process_remote_events s (error was_connected ∷ rest) =
    let (delay, s') = on_error was_connected s in
    let (delays, t) = process_remote_events s' rest in (delay ∷ delays, t)
process_remote_events s (reconnect_required ∷ rest) = process_remote_events (reset s) rest
process_remote_events s (stream_ended ∷ rest) = process_remote_events (reset s) rest

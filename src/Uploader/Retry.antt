-- ===== src/Uploader/Retry.antt =====
-- `upload_chunk_with_retry` and `ProgressStream` of uploader/chunk.rs, with `UploaderConfig` of
-- uploader/mod.rs. Durations are milliseconds. What happens outside, which is the cancellations, the
-- pieces that a stream yields and the provider's answer, is an argument for each attempt.
pub mod Attempts
pub mod Persist
use cloudreve_desktop.Prelude.{
  ltb, ◌==◌, if◌then◌else◌, u64_mod, add_u64, mul_u64, ℕ, zero, suc, ◌+◌, ◌%◌, ◌^◌, min, String,
  ◌⊎◌, inl, inr, Bool, Option, none, some, List, [], ◌∷◌,
}
use cloudreve_desktop.Uploader.Tracker.{ProgressTracker, add_bytes, reset_chunk_bytes}

pub record UploaderConfig : Type 0 where
  pub max_retries : ℕ
  pub retry_base_delay : ℕ
  pub retry_max_delay : ℕ
  pub request_timeout : ℕ

unfoldable pub default_config : UploaderConfig
default_config = record {
  max_retries = 3;
  retry_base_delay = 1000;
  retry_max_delay = 30000;
  request_timeout = 60000;
}

pub data Failure : Type 0 where
  cancelled cancelled_in_delay exceeded : Failure
  file_read provider : String → Failure

pub data Answer : Type 0 where
  ok : Option String → Answer
  err : Failure → Answer

-- One attempt's surroundings: `pieces` are the lengths of what the provider's request takes from the
-- stream before it answers.
pub record Attempt : Type 0 where
  pub cancelled_before : Bool
  pub cancelled_in_delay : Bool
  pub stream_error : Option String
  pub pieces : List ℕ
  pub answer : String ⊎ Option String  -- the provider's: an error, or the ETag

-- What the loop changes: the shared tracker, the provider's calls and the delays slept, last first.
pub record RetryState : Type 0 where
  pub tracker : ProgressTracker
  pub calls : ℕ
  pub delays : List ℕ

-- `ProgressStream::poll_next` for each piece: the stream's own counter and the tracker.
pub poll_pieces : List ℕ → ℕ → ProgressTracker → ℕ × ProgressTracker
unfolding add_bytes
poll_pieces [] sent tracker = (sent, tracker)
poll_pieces (len ∷ pieces) sent tracker =
    poll_pieces pieces (add_u64 sent len) (add_bytes tracker len)

-- `(base * (1 << attempt.min(10))).min(retry_max_delay)`.
unfoldable pub retry_delay : UploaderConfig → ℕ → ℕ
retry_delay config attempt =
    min (mul_u64 (as_u64_ms config.retry_base_delay) (2 ^ min attempt 10)) config.retry_max_delay
  where
    as_u64_ms : ℕ → ℕ
    as_u64_ms ms = ms % u64_mod

data Control : Type 0 where
  returned : Answer → Control
  again : Control

-- The provider's answer, with the state in which the stream was consumed.
finish : UploaderConfig → ℕ → String ⊎ Option String → RetryState → ℕ → Control × RetryState
unfolding reset_chunk_bytes
finish config attempt (inr etag) after bytes_sent = (Control.returned (Answer.ok etag), after)
finish config attempt (inl e) after bytes_sent =
    let failed = record after { tracker = reset_chunk_bytes after.tracker bytes_sent } in
    if attempt == config.max_retries
    then (Control.returned (Answer.err (Failure.provider e)), failed)
    else (Control.again, failed)

send : UploaderConfig → Attempt → ℕ → RetryState → Control × RetryState
unfolding poll_pieces finish
send config env attempt s =
    let (bytes_sent, tracker) = poll_pieces env.pieces 0 s.tracker in
    finish config attempt env.answer (record s { tracker = tracker; calls = s.calls + 1 })
      bytes_sent

-- The stream and the provider's call of an attempt.
call_provider : UploaderConfig → Attempt → ℕ → RetryState → Control × RetryState
unfolding send
call_provider config env attempt s = elim env.stream_error [
  | some e ↦ (Control.returned (Answer.err (Failure.file_read e)), s)
  | none ↦ send config env attempt s
]

-- The body of the loop.
try_attempt : UploaderConfig → Attempt → ℕ → RetryState → Control × RetryState
unfolding call_provider retry_delay
try_attempt config env attempt s =
    let slept = record s { delays = retry_delay config attempt ∷ s.delays } in
    if env.cancelled_before
    then (Control.returned (Answer.err Failure.cancelled), s)
    else if ltb 0 attempt
    then if env.cancelled_in_delay
      then (Control.returned (Answer.err Failure.cancelled_in_delay), s)
      else call_provider config env attempt slept
    else call_provider config env attempt s

-- A `return` in the loop's body ends the function.
proceed : Control × RetryState → (RetryState → Answer × RetryState) → Answer × RetryState
proceed (Control.returned answer, s) next = (answer, s)
proceed (Control.again, s) next = next s

-- `for attempt in 0..=config.max_retries`, with the number of rounds that are left.
attempts_from : UploaderConfig → (ℕ → Attempt) → ℕ → ℕ → RetryState → Answer × RetryState
unfolding try_attempt proceed
attempts_from config env zero attempt s = (Answer.err Failure.exceeded, s)
attempts_from config env (suc left) attempt s =
    proceed (try_attempt config (env attempt) attempt s)
      (λ s'. attempts_from config env left (suc attempt) s')

pub upload_chunk_with_retry : UploaderConfig → (ℕ → Attempt) → ProgressTracker → Answer × RetryState
unfolding attempts_from
upload_chunk_with_retry config env tracker =
    attempts_from config env (suc config.max_retries) 0
      (record { tracker = tracker; calls = 0; delays = [] })

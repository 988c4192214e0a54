-- ===== src/Uploader/Retry/Persist.antt =====
-- The retry loop goes on through the provider's errors to its first success, or to the last retry.
use cloudreve_desktop.Prelude.{
  ltb, Bool-cases, ℕ, suc, ◌+◌, ◌≤◌, ◌<◌, String, ◌≡◌, refl, inl, inr, false, Option, none, some,
  ◌∷◌, ◌==◌, zero, sym, ap, subst, ◌∙◌, true, [], arith, ℕ_discrete,
}
use cloudreve_desktop.Uploader.Tracker.{ProgressTracker, reset_chunk_bytes}
use cloudreve_desktop.Uploader.Retry.{
  UploaderConfig, Failure, Answer, Attempt, RetryState, retry_delay, Control, finish, send,
  call_provider, try_attempt, proceed, attempts_from, upload_chunk_with_retry,
}

-- An attempt that comes to the provider.
pub record Reaches (a : Attempt) : Type 0 where
  pub not_before : a.cancelled_before ≡ false
  pub not_in_delay : a.cancelled_in_delay ≡ false
  pub opens : a.stream_error ≡ none

-- An attempt that the provider answers with an error.
pub record Fails (a : Attempt) : Type 0 where
  pub reaches : Reaches a
  pub error : String
  pub answer : a.answer ≡ inl error

module _ (config : UploaderConfig) (env : ℕ → Attempt) where
  -- The provider's answer decides on the attempt, after one more call.
  record Answered (attempt : ℕ) (s : RetryState) (r : Control × RetryState) : Type 0 where
    after : RetryState
    sent : ℕ
    calls : after.calls ≡ s.calls + 1
    finished : r ≡ finish config attempt (env attempt).answer after sent

  call_provider_lem :
      (attempt : ℕ) (s : RetryState)
      → Reaches (env attempt)
      → Answered attempt s (call_provider config (env attempt) attempt s)
  unfolding call_provider send
  call_provider_lem attempt s r = opened (env attempt).stream_error r.opens
    where
      opened :
          (stream_error : Option String)
          → stream_error ≡ none
          → Answered attempt s (elim stream_error as (λ o. Control × RetryState) [
            | some e ↦ (Control.returned (Answer.err (Failure.file_read e)), s)
            | none ↦ send config (env attempt) attempt s
          ])
      opened none h = record { after = _; sent = _; calls = refl; finished = refl }
      opened (some e) h = absurd cc

  try_attempt_lem :
      (attempt : ℕ) (s : RetryState)
      → Reaches (env attempt)
      → Answered attempt s (try_attempt config (env attempt) attempt s)
  unfolding try_attempt
  try_attempt_lem attempt s r =
      rw (r.not_before, try_attempt)
        (elim (Bool-cases (ltb 0 attempt)) [
          | inl later ↦ rw (later, r.not_in_delay) (resume (call_provider_lem attempt _ r))
          | inr first ↦ rw first (call_provider_lem attempt s r)
        ])
    where
      resume :
          {out : Control × RetryState}
          → Answered attempt (record s { delays = retry_delay config attempt ∷ s.delays }) out
          → Answered attempt s out
      resume a = record { after = a.after; sent = a.sent; calls = a.calls; finished = a.finished }

  -- An attempt that fails before the last one leads to the next.
  failed_again :
      (attempt : ℕ) (s : RetryState)
      → attempt < config.max_retries
      → Fails (env attempt)
      → (s' : RetryState) × (s'.calls ≡ s.calls + 1)
        × (try_attempt config (env attempt) attempt s ≡ (Control.again, s'))
  unfolding finish
  failed_again attempt s h f =
      let a = try_attempt_lem attempt s f.reaches in
      let more : (attempt == config.max_retries) ≡ false = ground arith in
      (
        record a.after { tracker = reset_chunk_bytes a.after.tracker a.sent },
        a.calls,
        a.finished ∙ rw (f.answer, finish) (rw more refl),
      )

  failed_last :
      (attempt : ℕ) (s : RetryState) (f : Fails (env config.max_retries))
      → attempt ≡ config.max_retries
      → (s' : RetryState) × (s'.calls ≡ s.calls + 1)
        × (try_attempt config (env attempt) attempt s
            ≡ (Control.returned (Answer.err (Failure.provider f.error)), s'))
  unfolding finish
  failed_last attempt s f here =
      let a = try_attempt_lem attempt s (subst (λ i. Reaches (env i)) (sym here) f.reaches) in
      let answer : (env attempt).answer ≡ inl f.error = ap (λ i. (env i).answer) here ∙ f.answer in
      let last : (attempt == config.max_retries) ≡ true = ground (arith, here) in
      (
        record a.after { tracker = reset_chunk_bytes a.after.tracker a.sent },
        a.calls,
        a.finished ∙ rw (answer, finish) (rw last refl),
      )

  succeeded :
      (attempt : ℕ) (s : RetryState) (etag : Option String)
      → Reaches (env attempt)
      → (env attempt).answer ≡ inr etag
      → (s' : RetryState) × (s'.calls ≡ s.calls + 1)
        × (try_attempt config (env attempt) attempt s ≡ (Control.returned (Answer.ok etag), s'))
  unfolding finish
  succeeded attempt s etag r e =
      let a = try_attempt_lem attempt s r in (a.after, a.calls, a.finished ∙ rw (e, finish) refl)

  continues :
      (left attempt : ℕ) (s s' : RetryState)
      → try_attempt config (env attempt) attempt s ≡ (Control.again, s')
      → attempts_from config env (suc left) attempt s
        ≡ attempts_from config env left (suc attempt) s'
  unfolding attempts_from proceed
  continues left attempt s s' step =
      ap (λ r. proceed r (λ x. attempts_from config env left (suc attempt) x)) step

  stops :
      (left attempt : ℕ) (s s' : RetryState) (answer : Answer)
      → try_attempt config (env attempt) attempt s ≡ (Control.returned answer, s')
      → attempts_from config env (suc left) attempt s ≡ (answer, s')
  unfolding attempts_from proceed
  stops left attempt s s' answer step =
      ap (λ r. proceed r (λ x. attempts_from config env left (suc attempt) x)) step

  to_success :
      (left attempt k : ℕ) (s : RetryState) (etag : Option String)
      → attempt + left ≡ suc config.max_retries
      → attempt ≤ k
      → k ≤ config.max_retries
      → ((i : ℕ) → attempt ≤ i → i < k → Fails (env i))
      → Reaches (env k)
      → (env k).answer ≡ inr etag
      → let (answer, end) = attempts_from config env left attempt s in
        (answer ≡ Answer.ok etag) × (end.calls + attempt ≡ s.calls + suc k)
  to_success zero attempt k s etag h lo hi fails r e = absurd (omega arith)
  to_success (suc left) attempt k s etag h lo hi fails r e = elim (ℕ_discrete attempt k) [
    | yes here ↦
        let (s', calls, step) =
          succeeded attempt s etag (subst (λ i. Reaches (env i)) (sym here) r)
            (ap (λ i. (env i).answer) here ∙ e) in
        rw (stops left attempt s s' _ step) (refl, omega (arith, calls, here))
    | no before ↦
        let (s', calls, step) =
          failed_again attempt s (omega arith) (fails attempt (omega arith) (omega arith)) in
        let (answer, total) =
          to_success left (suc attempt) k s' etag (omega arith) (omega arith) hi
            (λ i lo' hi'. fails i (omega arith) hi') r e in
        rw (continues left attempt s s' step) (answer, omega (arith, total, calls))
  ]

  to_exhaustion :
      (left attempt : ℕ) (s : RetryState)
      → attempt + left ≡ suc config.max_retries
      → 0 < left
      → ((i : ℕ) → i < config.max_retries → Fails (env i))
      → (last : Fails (env config.max_retries))
      → let (answer, end) = attempts_from config env left attempt s in
        (answer ≡ Answer.err (Failure.provider last.error))
        × (end.calls + attempt ≡ s.calls + suc config.max_retries)
  to_exhaustion zero attempt s h some_left fails last = absurd (omega arith)
  to_exhaustion (suc left) attempt s h some_left fails last =
      elim (ℕ_discrete attempt config.max_retries) [
        | yes here ↦
            let (s', calls, step) = failed_last attempt s last here in
            rw (stops left attempt s s' _ step) (refl, omega (arith, calls, here))
        | no before ↦
            let (s', calls, step) =
              failed_again attempt s (omega arith) (fails attempt (omega arith)) in
            let (answer, total) =
              to_exhaustion left (suc attempt) s' (omega arith) (omega arith) fails last in
            rw (continues left attempt s s' step) (answer, omega (arith, total, calls))
      ]

  -- If the provider answers the first attempts with errors and attempt `k`, not above the number of
  -- retries, with an ETag, and nothing cancels them, the upload of the chunk succeeds with that ETag
  -- after `k + 1` calls.
  pub first_success :
      (tracker : ProgressTracker) (k : ℕ) (etag : Option String)
      → k ≤ config.max_retries
      → ((i : ℕ) → i < k → Fails (env i))
      → Reaches (env k)
      → (env k).answer ≡ inr etag
      → let (answer, s) = upload_chunk_with_retry config env tracker in
        (answer ≡ Answer.ok etag) × (s.calls ≡ suc k)
  unfolding upload_chunk_with_retry
  first_success tracker k etag h fails r e =
      let (answer, total) =
        to_success (suc config.max_retries) 0 k
          (record { tracker = tracker; calls = 0; delays = [] }) etag (omega arith) (omega arith) h
          (λ i lo hi. fails i hi) r e in
      (answer, omega (arith, total))

  -- If the provider answers every attempt with an error, and nothing cancels them, the upload of the
  -- chunk fails with the last attempt's error, after one call more than there are retries.
  pub persistent_failure :
      (tracker : ProgressTracker)
      → ((i : ℕ) → i < config.max_retries → Fails (env i))
      → (last : Fails (env config.max_retries))
      → let (answer, s) = upload_chunk_with_retry config env tracker in
        (answer ≡ Answer.err (Failure.provider last.error)) × (s.calls ≡ suc config.max_retries)
  unfolding upload_chunk_with_retry
  persistent_failure tracker fails last =
      let (answer, total) =
        to_exhaustion (suc config.max_retries) 0
          (record { tracker = tracker; calls = 0; delays = [] }) (omega arith) (omega arith) fails
          last in
      (answer, omega (arith, total))

-- ===== src/Uploader/Retry/Attempts.antt =====
-- What the retry loop of a chunk returns and how often it calls the provider.
use cloudreve_desktop.Prelude.{
  length, All, u64_mod, add_u64, ℕ, suc, ◌+◌, ◌%◌, ◌≤◌, ◌<◌, ◌≡◌, ap, ◌∙◌, ◌≢◌, inr, List, [], ◌∷◌,
  arith, ◌==◌, Bool-cases, String, refl, ◌⊎◌, inl, Option, ltb, ◌-◌, none, some, zero, subst,
}
use cloudreve_desktop.Uploader.Tracker.{ProgressTracker, add_bytes, reset_chunk_bytes}
use cloudreve_desktop.Uploader.Retry.{
  UploaderConfig, Failure, Answer, Attempt, RetryState, poll_pieces, retry_delay, Control, finish,
  send, call_provider, try_attempt, proceed, attempts_from, upload_chunk_with_retry,
}

abbrev pub sum : List ℕ → ℕ
sum [] = 0
sum (x ∷ xs) = x + sum xs

with_bytes : ProgressTracker → ℕ → ProgressTracker
with_bytes t n = record t { uploaded_bytes = n }

poll_pieces_lem :
    (pieces : List ℕ) (sent : ℕ) (t : ProgressTracker)
    → sent < u64_mod
    → t.uploaded_bytes < u64_mod
    → poll_pieces pieces sent t ≡ ((sent + sum pieces) % u64_mod, add_bytes t (sum pieces))
unfolding poll_pieces add_bytes with_bytes
poll_pieces_lem [] sent t s u =
    ap (λ n. (n, t)) {y = (sent + 0) % u64_mod} (omega arith)
    ∙ ap (λ n. ((sent + 0) % u64_mod, with_bytes t n)) {y = (t.uploaded_bytes + 0) % u64_mod}
        (omega arith)
poll_pieces_lem (len ∷ pieces) sent t s u =
    poll_pieces_lem pieces (add_u64 sent len) (add_bytes t len) (omega arith) (omega arith)
    ∙ ap (λ n. (n, with_bytes t ((add_u64 t.uploaded_bytes len + sum pieces) % u64_mod)))
        {y = (sent + (len + sum pieces)) % u64_mod} (omega arith)
    ∙ ap (λ n. ((sent + (len + sum pieces)) % u64_mod, with_bytes t n))
        {y = (t.uploaded_bytes + (len + sum pieces)) % u64_mod} (omega arith)

-- Taking back what a stream counted leaves the tracker as it was.
reset-add_bytes :
    (t : ProgressTracker) (n : ℕ)
    → t.uploaded_bytes < u64_mod
    → reset_chunk_bytes (add_bytes t n) (n % u64_mod) ≡ t
unfolding add_bytes reset_chunk_bytes with_bytes
reset-add_bytes t n u = ap (with_bytes t) (omega arith)

-- An answer with its cause: a success is the provider's at the last attempt, and the tracker has the
-- bytes of that attempt and of no other; a failure leaves the tracker as it was.
abbrev pub Explains : (ℕ → Attempt) → ProgressTracker → Answer → RetryState → Type 0
Explains env t (Answer.ok etag) s =
    (n : ℕ) × (s.calls ≡ suc n)
    × ((env n).answer ≡ inr etag)
    × (s.tracker ≡ add_bytes t (sum (env n).pieces))
Explains env t (Answer.err f) s = (s.tracker ≡ t) × (f ≢ Failure.exceeded)

module _ (config : UploaderConfig) (env : ℕ → Attempt) (t : ProgressTracker)
    (u : t.uploaded_bytes < u64_mod) where
  -- A state in which `attempt` provider's calls were made and taken back, after at most `bound`
  -- delays.
  record At (attempt bound : ℕ) (s : RetryState) : Type 0 where
    tracker : s.tracker ≡ t
    calls : s.calls ≡ attempt
    delays : All (λ d. d ≤ config.retry_max_delay) s.delays
    slept : length s.delays ≤ bound

  -- A state that the loop ends in.
  record End (answer : Answer) (s : RetryState) : Type 0 where
    explains : Explains env t answer s
    calls : s.calls ≤ suc config.max_retries
    delays : All (λ d. d ≤ config.retry_max_delay) s.delays
    slept : length s.delays ≤ config.max_retries

  abbrev After : ℕ → Control × RetryState → Type 0
  After attempt (Control.returned answer, s) = End answer s
  After attempt (Control.again, s) = (attempt < config.max_retries) × At (suc attempt) attempt s

  stop_lem :
      {attempt slept : ℕ} (s : RetryState) (f : Failure)
      → attempt ≤ config.max_retries
      → slept ≤ config.max_retries
      → f ≢ Failure.exceeded
      → At attempt slept s
      → End (Answer.err f) s
  stop_lem s f h k known a = record {
    explains = (a.tracker, known);
    calls = omega (arith, a.calls);
    delays = a.delays;
    slept = omega (arith, a.slept);
  }

  finish_lem :
      (attempt : ℕ) (s : RetryState) (answer : String ⊎ Option String)
      → attempt ≤ config.max_retries
      → At attempt attempt s
      → (env attempt).answer ≡ answer
      → After attempt (
          finish config attempt answer
            (record s {
              tracker = add_bytes s.tracker (sum (env attempt).pieces);
              calls = s.calls + 1;
            })
            ((0 + sum (env attempt).pieces) % u64_mod))
  unfolding finish
  finish_lem attempt s (inr etag) h a e = record {
    explains = (
      attempt,
      omega (arith, a.calls),
      e,
      ap (λ x. add_bytes x (sum (env attempt).pieces)) a.tracker,
    );
    calls = omega (arith, a.calls);
    delays = a.delays;
    slept = omega (arith, a.slept);
  }
  finish_lem attempt s (inl err) h a e = elim (Bool-cases (attempt == config.max_retries)) [
    | inl last ↦ rw last (record {
      explains = (taken_back, λ r. cc);
      calls = omega (arith, a.calls);
      delays = a.delays;
      slept = omega (arith, a.slept);
    })
    | inr more ↦ rw more (
      ground arith,
      record {
        tracker = taken_back;
        calls = omega (arith, a.calls);
        delays = a.delays;
        slept = a.slept;
      },
    )
  ]
    where
      taken_back :
          reset_chunk_bytes
            (add_bytes s.tracker (sum (env attempt).pieces))
            ((0 + sum (env attempt).pieces) % u64_mod)
          ≡ t
      taken_back =
          ap (reset_chunk_bytes (add_bytes s.tracker (sum (env attempt).pieces)))
            {y = sum (env attempt).pieces % u64_mod} (omega arith)
          ∙ reset-add_bytes s.tracker (sum (env attempt).pieces) (rw a.tracker u)
          ∙ a.tracker

  send_lem :
      (attempt : ℕ) (s : RetryState)
      → attempt ≤ config.max_retries
      → At attempt attempt s
      → After attempt (send config (env attempt) attempt s)
  unfolding send
  send_lem attempt s h a =
      rw (poll_pieces_lem (env attempt).pieces 0 s.tracker (omega arith) (rw a.tracker u))
        (finish_lem attempt s (env attempt).answer h a refl)

  call_provider_lem :
      (attempt : ℕ) (s : RetryState)
      → attempt ≤ config.max_retries
      → At attempt attempt s
      → After attempt (call_provider config (env attempt) attempt s)
  unfolding call_provider
  call_provider_lem attempt s h a = opened (env attempt).stream_error
    where
      opened :
          (stream_error : Option String)
          → After attempt (elim stream_error [
            | some e ↦ (Control.returned (Answer.err (Failure.file_read e)), s)
            | none ↦ send config (env attempt) attempt s
          ])
      opened none = send_lem attempt s h a
      opened (some e) = stop_lem s (Failure.file_read e) h h (λ r. cc) a

  try_attempt_lem :
      (attempt : ℕ) (s : RetryState)
      → attempt ≤ config.max_retries
      → At attempt (attempt - 1) s
      → After attempt (try_attempt config (env attempt) attempt s)
  unfolding try_attempt retry_delay
  try_attempt_lem attempt s h a = elim (Bool-cases (env attempt).cancelled_before) [
    | inl stop ↦ rw (stop, try_attempt) (stop_lem s Failure.cancelled h (omega arith) (λ r. cc) a)
    | inr on ↦ elim (Bool-cases (ltb 0 attempt)) [
      | inr first ↦
          rw (on, try_attempt)
            (rw first (
              call_provider_lem attempt s h (record {
                tracker = a.tracker;
                calls = a.calls;
                delays = a.delays;
                slept = omega (arith, a.slept);
              })))
      | inl later ↦ elim (Bool-cases (env attempt).cancelled_in_delay) [
        | inl stop ↦
            rw (on, try_attempt)
              (rw (later, stop) (stop_lem s Failure.cancelled_in_delay h (omega arith) (λ r. cc) a))
        | inr waited ↦
            rw (on, try_attempt)
              (rw (later, waited)
                (call_provider_lem attempt _ h (record {
                  tracker = a.tracker;
                  calls = a.calls;
                  delays = (omega arith, a.delays);
                  slept = ground (arith, a.slept);
                })))
      ]
    ]
  ]

  attempts_from_lem :
      (left attempt : ℕ) (s : RetryState)
      → 0 < left
      → attempt + left ≡ suc config.max_retries
      → At attempt (attempt - 1) s
      → End (attempts_from config env left attempt s).0 (attempts_from config env left attempt s).1
  unfolding attempts_from proceed
  attempts_from_lem zero attempt s pos h a = absurd (omega arith)
  attempts_from_lem (suc left) attempt s pos h a =
      next (try_attempt config (env attempt) attempt s) (try_attempt_lem attempt s (omega arith) a)
        (λ s' more a'.
          attempts_from_lem left (suc attempt) s' (omega arith) (omega arith)
            (subst (λ b. At (suc attempt) b s') {x = attempt} (omega arith) a'))
    where
      next :
          (r : Control × RetryState)
          → After attempt r
          → ((s' : RetryState)
              → attempt < config.max_retries
              → At (suc attempt) attempt s'
              → End
                  (attempts_from config env left (suc attempt) s').0
                  (attempts_from config env left (suc attempt) s').1)
          → let out = proceed r (λ x. attempts_from config env left (suc attempt) x) in
            End out.0 out.1
      next (Control.returned answer, s') after rec = after
      next (Control.again, s') (more, a') rec = rec s' more a'

  -- From a tracker whose uploaded bytes fit in a u64: uploading a chunk calls the provider at
  -- most once more than there are retries, sleeps at most once per retry and never longer than
  -- the longest delay. A success is the provider's at the last call, and the tracker then has
  -- the bytes of that attempt and of none before it. A failure leaves the tracker as it was,
  -- and is never the "max retries exceeded" that follows the loop.
  pub upload_chunk_with_retry-outcome :
      let (answer, s) = upload_chunk_with_retry config env t in
      Explains env t answer s
      × (s.calls ≤ suc config.max_retries)
      × All (λ d. d ≤ config.retry_max_delay) s.delays
      × (length s.delays ≤ config.max_retries)
  unfolding upload_chunk_with_retry
  upload_chunk_with_retry-outcome =
      let e =
        attempts_from_lem (suc config.max_retries) 0
          (record { tracker = t; calls = 0; delays = [] }) (omega arith) (omega arith)
          (record { tracker = refl; calls = refl; delays = tt; slept = omega arith }) in
      (e.explains, e.calls, e.delays, e.slept)

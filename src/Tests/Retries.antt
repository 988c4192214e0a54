-- ===== src/Tests/Retries.antt =====
-- The retry loop at concrete inputs.
use cloudreve_desktop.Prelude.{
  length, All, ℕ, zero, suc, ◌≤◌, ◌<◌, String, ◌≡◌, refl, ◌⊎◌, inl, inr, false, Option, none, some,
  [], ◌∷◌, arith, ◌*◌, ◌/◌,
}
use cloudreve_desktop.Uploader.Tracker.{
  ProgressTracker, start_chunk, create_update, new_update, record_and_calculate, speed_from,
}
use cloudreve_desktop.Uploader.Retry.{
  UploaderConfig, Answer, Attempt, default_config, retry_delay, upload_chunk_with_retry,
}
use cloudreve_desktop.Uploader.Retry.Attempts.{Explains, upload_chunk_with_retry-outcome}
use cloudreve_desktop.Uploader.Retry.Persist.{Fails, first_success}

abbrev tracker : ProgressTracker
tracker = record {
  total_size = 100;
  uploaded_bytes = 10;
  active_chunks = 1;
  total_chunks = 2;
  completed_chunks = 0;
  speed_calc = record { samples = []; window_duration = 10000 };
  cached_speed = 0;
}

abbrev config : UploaderConfig
config = record {
  max_retries = 2;
  retry_base_delay = 1000;
  retry_max_delay = 30000;
  request_timeout = 60000;
}

abbrev attempt_with : String ⊎ Option String → Attempt
attempt_with answer = record {
  cancelled_before = false;
  cancelled_in_delay = false;
  stream_error = none;
  pieces = 30 ∷ (20 ∷ []);
  answer = answer;
}

-- Two errors, then a success.
abbrev recovers : ℕ → Attempt
recovers zero = attempt_with (inl "503")
recovers (suc zero) = attempt_with (inl "504")
recovers (suc (suc n)) = attempt_with (inr (some "etag"))

abbrev broken : ℕ → Attempt
broken n = attempt_with (inl "503")

recovers-Fails : (i : ℕ) → i < 2 → Fails (recovers i)
recovers-Fails zero h = record {
  reaches = record { not_before = refl; not_in_delay = refl; opens = refl };
  error = "503";
  answer = refl;
}
recovers-Fails (suc zero) h = record {
  reaches = record { not_before = refl; not_in_delay = refl; opens = refl };
  error = "504";
  answer = refl;
}
recovers-Fails (suc (suc n)) h = absurd (omega arith)

upload_chunk_with_retry-outcome_example :
    let (answer, s) = upload_chunk_with_retry config recovers tracker in
    Explains recovers tracker answer s
    × (s.calls ≤ 3)
    × All (λ d. d ≤ 30000) s.delays
    × (length s.delays ≤ 2)
upload_chunk_with_retry-outcome_example =
    upload_chunk_with_retry-outcome config recovers tracker (omega arith)

first_success_example :
    let (answer, s) = upload_chunk_with_retry config recovers tracker in
    (answer ≡ Answer.ok (some "etag")) × (s.calls ≡ 3)
first_success_example =
    first_success config recovers tracker 2 (some "etag") (omega arith) recovers-Fails
      (record { not_before = refl; not_in_delay = refl; opens = refl }) refl

-- The default delays before the three retries.
retry_delay_test :
    (retry_delay default_config 1 ≡ 2000)
    × (retry_delay default_config 2 ≡ 4000)
    × (retry_delay default_config 3 ≡ 8000)
unfolding retry_delay default_config
retry_delay_test = (refl, refl, refl)

-- An update one second after a sample: 50 bytes at the speed of the last second.
create_update_test :
    let t = start_chunk (record tracker {
      uploaded_bytes = 60;
      speed_calc = record { samples = (1000, 10) ∷ []; window_duration = 10000 };
    }) in
    let (update, after) = create_update (λ bytes ms. bytes * 1000 / ms) 2000 t in
    (update.speed_bytes_per_sec ≡ 50)
    × (update.eta_seconds ≡ some 0)
    × (update.concurrent_chunks ≡ 2)
unfolding start_chunk create_update new_update record_and_calculate speed_from
create_update_test = (refl, refl, refl)

-- ===== src/Uploader/Tracker.antt =====
-- uploader/progress.rs: the atomic counters of an upload, the sliding window behind the speed, and
-- the updates that are sent. Instants are milliseconds; `rate bytes elapsed` stands for the division
-- in f64, whose result is cast to u64; the fraction `progress`, an f64, is left out.
pub mod Window
use cloudreve_desktop.Prelude.{
  ltb, leb, if◌then◌else◌, filter_by, add_u64, sub_u64, ℕ, ◌-◌, ◌/◌, Bool, ◌&&◌, Option, none, some,
  List, [], ◌∷◌, ◌++◌,
}
use cloudreve_desktop.Uploader.Session.{UploadSession, ChunkProgress, is_complete, num_chunks}

pub record ProgressUpdate : Type 0 where
  pub total_size : ℕ
  pub uploaded : ℕ
  pub speed_bytes_per_sec : ℕ
  pub eta_seconds : Option ℕ
  pub concurrent_chunks : ℕ
  pub total_chunks : ℕ
  pub completed_chunks : ℕ

unfoldable pub new_update : ℕ → ℕ → ℕ → ℕ → ℕ → ℕ → ProgressUpdate
new_update total_size uploaded speed concurrent_chunks total_chunks completed_chunks = record {
  total_size = total_size;
  uploaded = uploaded;
  speed_bytes_per_sec = speed;
  eta_seconds =
      if ltb 0 speed && ltb uploaded total_size
      then some ((total_size - uploaded) / speed)
      else none;
  concurrent_chunks = concurrent_chunks;
  total_chunks = total_chunks;
  completed_chunks = completed_chunks;
}

pub record SpeedCalculator : Type 0 where
  pub samples : List (ℕ × ℕ)
  pub window_duration : ℕ

new_calculator : SpeedCalculator
new_calculator = record { samples = []; window_duration = 10000 }

-- `*t >= now - window`, with `Instant` values after the window's length.
abbrev pub in_window : ℕ → ℕ → ℕ × ℕ → Bool
in_window now window (t, bytes) = leb (now - window) t

-- The speed from the oldest sample that is left.
unfoldable pub speed_from : (ℕ → ℕ → ℕ) → ℕ → ℕ → List (ℕ × ℕ) → ℕ
speed_from rate now total_bytes ((oldest_time, oldest_bytes) ∷ second ∷ rest) =
    if ltb 0 (now - oldest_time) then rate (total_bytes - oldest_bytes) (now - oldest_time) else 0
speed_from rate now total_bytes _ = 0

unfoldable pub record_and_calculate : (ℕ → ℕ → ℕ) → ℕ → SpeedCalculator → ℕ → ℕ × SpeedCalculator
unfolding speed_from
record_and_calculate rate now c total_bytes =
    let kept = filter_by (in_window now c.window_duration) (c.samples ++ (now, total_bytes) ∷ []) in
    (speed_from rate now total_bytes kept, record c { samples = kept })

pub record ProgressTracker : Type 0 where
  pub total_size : ℕ
  pub uploaded_bytes : ℕ
  pub active_chunks : ℕ
  pub total_chunks : ℕ
  pub completed_chunks : ℕ
  pub speed_calc : SpeedCalculator
  pub cached_speed : ℕ

unfoldable pub new : ℕ → ℕ → ProgressTracker
unfolding new_calculator
new total_size total_chunks = record {
  total_size = total_size;
  uploaded_bytes = 0;
  active_chunks = 0;
  total_chunks = total_chunks;
  completed_chunks = 0;
  speed_calc = new_calculator;
  cached_speed = 0;
}

unfoldable pub start_chunk : ProgressTracker → ProgressTracker
start_chunk t = record t { active_chunks = add_u64 t.active_chunks 1 }

unfoldable pub complete_chunk : ProgressTracker → ProgressTracker
complete_chunk t = record t {
  active_chunks = sub_u64 t.active_chunks 1;
  completed_chunks = add_u64 t.completed_chunks 1;
}

unfoldable pub add_bytes : ProgressTracker → ℕ → ProgressTracker
add_bytes t bytes = record t { uploaded_bytes = add_u64 t.uploaded_bytes bytes }

unfoldable pub reset_chunk_bytes : ProgressTracker → ℕ → ProgressTracker
reset_chunk_bytes t bytes = record t { uploaded_bytes = sub_u64 t.uploaded_bytes bytes }

unfoldable pub create_update : (ℕ → ℕ → ℕ) → ℕ → ProgressTracker → ProgressUpdate × ProgressTracker
unfolding new_update record_and_calculate
create_update rate now t =
    let (speed, calc) = record_and_calculate rate now t.speed_calc t.uploaded_bytes in
    (
      new_update t.total_size t.uploaded_bytes speed t.active_chunks t.total_chunks
          t.completed_chunks,
      record t { speed_calc = calc; cached_speed = speed },
    )

-- The loop of `upload_all` over the chunks that are complete already.
count_completed : ProgressTracker → List ChunkProgress → ProgressTracker
unfolding add_bytes complete_chunk
count_completed t [] = t
count_completed t (c ∷ cs) =
    count_completed (if is_complete c then complete_chunk (add_bytes t c.loaded) else t) cs

-- The tracker that `upload_all` starts with.
pub initial_tracker : UploadSession → ProgressTracker
unfolding count_completed new num_chunks
initial_tracker session =
    count_completed (new session.file_size (num_chunks session)) session.chunk_progress

-- ===== src/Tests/Pools.antt =====
-- The worker pool at a concrete session of one chunk, with one worker.
use cloudreve_desktop.Prelude.{
  get_elem?, ℕ, ◌≡◌, refl, ◌↔◌, false, none, some, List, [], ◌∷◌, arith,
}
use cloudreve_desktop.Prelude.Int.{ℤ, pos}
use cloudreve_desktop.Uploader.Session.{
  PolicyType, UploadSession, ChunkInfo, ChunkProgress, new_progress, chunk_size_for, chunk_range,
}
use cloudreve_desktop.Uploader.Pool.{
  get_error, Worker, System, chunk_infos, start, Reach, is_live, total, checking, uploading,
  stopped, here, next, spawn, begin, succeed, fetch, worker_started, worker_done, record_success,
  record_entry, new, next_chunk,
}
use cloudreve_desktop.Uploader.Pool.Outcome.{
  IsPending, active_workers_exact, exclusive_chunks, Finished-uploaded,
}
use cloudreve_desktop.Tests.Uploads.{credential}

abbrev session : UploadSession
session = record {
  id = "session";
  task_id = "task";
  drive_id = "drive";
  local_path = "C:/a.txt";
  remote_uri = "cloudreve://my/a.txt";
  file_size = 3;
  chunk_size = 4;
  policy_type = PolicyType.local;
  credential = credential;
  relay = false;
  chunk_progress = new_progress 0 ∷ [];
  encrypt_metadata = none;
  expires_at = pos 100;
  created_at = pos 1;
  updated_at = pos 1;
}

abbrev chunk : ChunkInfo
chunk = record { index = 0; size = 3; offset = 0 }

abbrev state : List ChunkInfo → ℕ → List ChunkProgress → ℤ → List Worker → ℕ → System
state pending active entries time workers left = record {
  pool = record {
    pending_chunks = pending;
    error = none;
    has_error = false;
    active_workers = active;
  };
  progress = record { chunk_progress = entries; updated_at = time };
  cancelled = false;
  workers = workers;
  to_spawn = left;
}

abbrev done_entry : ChunkProgress
done_entry = record { index = 0; loaded = 3; etag = some "etag" }

abbrev spawned : System
spawned = state [] 1 (new_progress 0 ∷ []) (pos 1) (checking chunk ∷ []) 0

abbrev begun : System
begun = state [] 1 (new_progress 0 ∷ []) (pos 1) (uploading chunk ∷ []) 0

abbrev ended : System
ended = state [] 0 (done_entry ∷ []) (pos 5) (stopped ∷ []) 0

run_begun : Reach (start session (0 ∷ []) 1 false) begun
unfolding start new chunk_infos chunk_size_for chunk_range worker_started next_chunk
run_begun = next (next here (spawn 0 refl)) (begin 0 chunk refl refl)

run_ended : Reach (start session (0 ∷ []) 1 false) ended
unfolding record_entry record_success worker_done next_chunk
run_ended = next (next run_begun (succeed 0 chunk (some "etag") (pos 5) refl)) (fetch 0 refl)

session-IsPending : IsPending session (0 ∷ [])
unfolding chunk_infos get_error
session-IsPending = record { distinct = λ x. ground arith; inside = omega arith }

active_workers_exact_example : (begun.pool.active_workers ≡ 0) ↔ (total is_live begun.workers ≡ 0)
active_workers_exact_example =
    active_workers_exact session (0 ∷ []) 1 false session-IsPending (omega arith) (omega arith)
      begun run_begun

exclusive_chunks_example : ◌≡◌ {A = ℕ} 0 0
exclusive_chunks_example =
    exclusive_chunks session (0 ∷ []) 1 false session-IsPending (omega arith) (omega arith) begun
      run_begun 0 0 chunk chunk refl refl refl

Finished-uploaded_example :
    (e : ChunkProgress) × (get_elem? ended.progress.chunk_progress 0 ≡ some e)
    × (e.loaded ≡ chunk_size_for session 0)
unfolding chunk_infos get_error
Finished-uploaded_example =
    Finished-uploaded session (0 ∷ []) 1 false session-IsPending (omega arith) (omega arith) ended
      run_ended (record { spawned = refl; all_stopped = refl }) refl refl 0 (ground arith)

-- ===== src/Uploader/Pool.antt =====
-- The dynamic worker pool of uploader/chunk.rs: `UploadPoolState`, the worker loop of
-- `spawn_chunk_worker`, and `upload_chunks_with_pool` around them. Workers run concurrently: a run is
-- a sequence of `Step`s, each one atomic operation of one worker, of the spawning loop, or a
-- cancellation from outside. What one chunk's upload returns (`upload_chunk_with_retry`) is chosen
-- by the environment.
pub mod Workers
pub mod Invariant
pub mod Outcome
use cloudreve_desktop.Prelude.Int.{ℤ}
use cloudreve_desktop.Prelude.{
  get_elem?, set, add_u64, sub_u64, ℕ, suc, ◌+◌, String, ◌≡◌, ◌≢◌, Bool, true, false, ◌||◌, Option,
  none, some, List, [], ◌∷◌, ◌++◌, ◌<◌,
}
use cloudreve_desktop.Uploader.Session.{
  UploadSession, ChunkInfo, ChunkProgress, chunk_range, chunk_size_for,
}

pub record UploadPoolState : Type 0 where
  pub pending_chunks : List ChunkInfo
  pub error : Option String
  pub has_error : Bool
  pub active_workers : ℕ

unfoldable pub new : List ChunkInfo → UploadPoolState
new chunks = record { pending_chunks = chunks; error = none; has_error = false; active_workers = 0 }

unfoldable pub worker_started : UploadPoolState → UploadPoolState
worker_started p = record p { active_workers = add_u64 p.active_workers 1 }

abbrev take_first : UploadPoolState → List ChunkInfo → Option ChunkInfo × UploadPoolState
take_first p [] = (none, p)
take_first p (c ∷ cs) = (some c, record p { pending_chunks = cs })

-- `locked` says that another caller holds the lock, so that `try_lock` fails.
unfoldable pub next_chunk : Bool → UploadPoolState → Option ChunkInfo × UploadPoolState
next_chunk true p = (none, p)
next_chunk false p = take_first p p.pending_chunks

abbrev first_message : Option String → String → Option String
first_message none msg = some msg
first_message (some old) msg = some old

-- A contended `try_lock` means that another worker is storing its message: this one then counts as the
-- later of the two, and leaves the message as it is.
pub set_error : String → UploadPoolState → UploadPoolState
set_error msg p = record p { has_error = true; error = first_message p.error msg }

unfoldable pub get_error : UploadPoolState → Option String
get_error p = p.error

unfoldable pub worker_done : UploadPoolState → UploadPoolState
worker_done p = record p { active_workers = sub_u64 p.active_workers 1 }

-- Where a worker stands in its loop.
pub data Worker : Type 0 where
  checking : ChunkInfo → Worker  -- at the test for an error or a cancellation
  uploading : ChunkInfo → Worker  -- in `upload_chunk_with_retry`
  fetching : Worker  -- about to call `next_chunk`
  stopped : Worker

-- `ChunkProgressState`, written under its mutex.
pub record ChunkProgressState : Type 0 where
  pub chunk_progress : List ChunkProgress
  pub updated_at : ℤ

pub record System : Type 0 where
  pub pool : UploadPoolState
  pub progress : ChunkProgressState
  pub cancelled : Bool
  pub workers : List Worker
  pub to_spawn : ℕ  -- rounds left of the loop that spawns the first workers

unfoldable pub record_entry :
    ChunkProgressState → ChunkInfo → Option String → ℤ → Option ChunkProgress → ChunkProgressState
record_entry p chunk etag now none = p
record_entry p chunk etag now (some c) = record {
  chunk_progress = set p.chunk_progress chunk.index (record c { loaded = chunk.size; etag = etag });
  updated_at = now;
}

-- The write after a successful upload.
unfoldable pub record_success :
    ChunkProgressState → ChunkInfo → Option String → ℤ → ChunkProgressState
unfolding record_entry
record_success p chunk etag now =
    record_entry p chunk etag now (get_elem? p.chunk_progress chunk.index)

-- `pending_chunks.iter().map(...)` at the start of `upload_chunks_with_pool`.
unfoldable pub chunk_infos : UploadSession → List ℕ → List ChunkInfo
chunk_infos session [] = []
chunk_infos session (index ∷ rest) =
    record {
      index = index;
      size = chunk_size_for session index;
      offset = (chunk_range session index).0;
    }
    ∷ chunk_infos session rest

unfoldable pub start : UploadSession → List ℕ → ℕ → Bool → System
unfolding new
start session pending_chunks concurrency cancelled = record {
  pool = new (chunk_infos session pending_chunks);
  progress = record { chunk_progress = session.chunk_progress; updated_at = session.updated_at };
  cancelled = cancelled;
  workers = [];
  to_spawn = concurrency;
}

-- A worker moves to a new place.
abbrev pub move : System → ℕ → Worker → System
move s i w = record s { workers = set s.workers i w }

abbrev pub halt : Bool → Bool → Bool
halt has_error cancelled = has_error || cancelled

-- What a worker does with the answer of `next_chunk`: it goes on or it is done.
abbrev after_fetch : System → ℕ → Option ChunkInfo × UploadPoolState → System
after_fetch s i (none, p) = record s { pool = worker_done p; workers = set s.workers i stopped }
after_fetch s i (some c, p) = record s { pool = p; workers = set s.workers i (checking c) }

-- A round of the spawning loop.
abbrev after_spawn : System → ℕ → Option ChunkInfo × UploadPoolState → System
after_spawn s n (none, p) = record s { pool = p; to_spawn = n }
after_spawn s n (some c, p) = record s {
  pool = worker_started p;
  workers = s.workers ++ checking c ∷ [];
  to_spawn = n;
}

pub data Step (s : System) : System → Type 0 where
  -- The token is cancelled from outside.
  cancel : Step s (record s { cancelled = true })
  -- The test passes, and the upload starts; or it fails, and the worker returns.
  begin :
      (i : ℕ) (c : ChunkInfo)
      → get_elem? s.workers i ≡ some (checking c)
      → halt s.pool.has_error s.cancelled ≡ false
      → Step s (move s i (uploading c))
  leave :
      (i : ℕ) (c : ChunkInfo)
      → get_elem? s.workers i ≡ some (checking c)
      → halt s.pool.has_error s.cancelled ≡ true
      → Step s (record (move s i stopped) { pool = worker_done s.pool })
  -- The chunk is uploaded.
  succeed :
      (i : ℕ) (c : ChunkInfo) (etag : Option String) (now : ℤ)
      → get_elem? s.workers i ≡ some (uploading c)
      → Step s (record (move s i fetching) { progress = record_success s.progress c etag now })
  -- The chunk fails for good.
  fail :
      (i : ℕ) (c : ChunkInfo) (msg : String)
      → get_elem? s.workers i ≡ some (uploading c)
      → Step s (record (move s i stopped) {
        pool = worker_done (set_error msg s.pool);
        cancelled = true;
      })
  -- The next chunk is asked for, with the lock free.
  fetch :
      (i : ℕ)
      → get_elem? s.workers i ≡ some fetching
      → Step s (after_fetch s i (next_chunk false s.pool))
  -- The same while another worker is in `next_chunk`.
  contend :
      (i j : ℕ)
      → get_elem? s.workers i ≡ some fetching
      → get_elem? s.workers j ≡ some fetching
      → i ≢ j
      → Step s (after_fetch s i (next_chunk true s.pool))
  -- The same while the spawning loop is in `next_chunk`.
  contend_spawner :
      (i : ℕ)
      → get_elem? s.workers i ≡ some fetching
      → 0 < s.to_spawn
      → Step s (after_fetch s i (next_chunk true s.pool))
  -- A round of the spawning loop, with the lock free or held by a worker.
  spawn : (n : ℕ) → s.to_spawn ≡ suc n → Step s (after_spawn s n (next_chunk false s.pool))
  spawn_contend :
      (n j : ℕ)
      → s.to_spawn ≡ suc n
      → get_elem? s.workers j ≡ some fetching
      → Step s (after_spawn s n (next_chunk true s.pool))

pub data Reach (s : System) : System → Type 0 where
  here : Reach s s
  next : {t u : System} → Reach s t → Step t u → Reach s u

abbrev pub is_live : Worker → ℕ
is_live stopped = 0
is_live _ = 1

-- A sum over the workers.
abbrev pub total : (Worker → ℕ) → List Worker → ℕ
total f [] = 0
total f (w ∷ ws) = f w + total f ws

-- The spawning loop and every worker have ended: `wait_for_completion` has returned.
pub record Finished (s : System) : Type 0 where
  pub spawned : s.to_spawn ≡ 0
  pub all_stopped : total is_live s.workers ≡ 0

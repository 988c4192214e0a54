-- ===== src/Uploader/Pool/Invariant.antt =====
-- What holds in every state that the pool reaches.
pub mod Workers
pub mod Steps
use cloudreve_desktop.Prelude.{
  ◌==◌, if◌then◌else◌, length, get_elem?, All, ℕ, ◌+◌, ◌≤◌, ◌<◌, String, ◌≡◌, Bool, true, false,
  not, Option, none, some, List, [], ◌∷◌,
}
use cloudreve_desktop.Uploader.Session.{ChunkInfo, ChunkProgress}
use cloudreve_desktop.Uploader.Pool.{Worker, checking, uploading, System, halt, is_live, total}

-- One for a chunk with this index, among the pending ones and in a worker's hands.
abbrev pub at_index : ℕ → ChunkInfo → ℕ
at_index x c = if c.index == x then 1 else 0

abbrev pub waiting : ℕ → List ChunkInfo → ℕ
waiting x [] = 0
waiting x (c ∷ cs) = at_index x c + waiting x cs

abbrev pub held : ℕ → Worker → ℕ
held x (checking c) = at_index x c
held x (uploading c) = at_index x c
held x _ = 0

-- One when the entry of chunk `x` records this many bytes.
abbrev pub settled : ℕ → ℕ → List ChunkProgress → ℕ
settled size x entries = elim (get_elem? entries x) [
  | none ↦ 0
  | some e ↦ if e.loaded == size then 1 else 0
]

abbrev is_none : Option String → Bool
is_none none = true
is_none (some msg) = false

module _ (size : ℕ → ℕ) (entries : ℕ) where
  -- The chunk has the size that its index has, and an entry to record it.
  abbrev pub Fits : ChunkInfo → Type 0
  Fits c = (c.size ≡ size c.index) × (c.index < entries)

  abbrev pub Holds : Worker → Type 0
  Holds (checking c) = Fits c
  Holds (uploading c) = Fits c
  Holds _ = Unit

  -- `initial` are the chunks to upload, `limit` the number of workers that may be spawned.
  pub record Inv (initial : List ChunkInfo) (limit : ℕ) (s : System) : Type 0 where
    pub active : s.pool.active_workers ≡ total is_live s.workers
    pub few : total is_live s.workers + s.to_spawn ≤ limit
    pub fits_pending : All Fits s.pool.pending_chunks
    pub fits_workers : All Holds s.workers
    pub recorded : length s.progress.chunk_progress ≡ entries
    pub once : (x : ℕ) → waiting x s.pool.pending_chunks + total (held x) s.workers ≤ 1
    pub kept :
        (x : ℕ)
        → 0 < waiting x initial
        → halt s.pool.has_error s.cancelled ≡ false
        → 0
          < waiting x s.pool.pending_chunks
            + total (held x) s.workers
            + settled (size x) x s.progress.chunk_progress
    pub message : s.pool.has_error ≡ not (is_none s.pool.error)
    pub going :
        halt s.pool.has_error s.cancelled ≡ false
        → 0 < length s.pool.pending_chunks
        → 0 < total is_live s.workers + s.to_spawn

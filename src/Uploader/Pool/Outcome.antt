-- ===== src/Uploader/Pool/Outcome.antt =====
-- What a finished pool has done.
use cloudreve_desktop.Prelude.{
  length, get_elem?, All, u64_mod, ℕ, ◌≤◌, ◌<◌, ◌≡◌, refl, ◌↔◌, Bool, false, none, some, List, [],
  ◌∷◌, arith, Option-cases, set, get_elem?-set_ne, ◌∙◌, inl, inr, ℕ_discrete, ◌==◌, if◌then◌else◌,
}
use cloudreve_desktop.Uploader.Session.{UploadSession, ChunkInfo, ChunkProgress, chunk_size_for}
use cloudreve_desktop.Uploader.Pool.{
  get_error, Worker, checking, uploading, fetching, stopped, System, chunk_infos, start, halt,
  Reach, here, next, is_live, total, Finished,
}
use cloudreve_desktop.Uploader.Pool.Workers.{le-total, total-set}
use cloudreve_desktop.Uploader.Pool.Invariant.{waiting, held, settled, Fits, Inv}
use cloudreve_desktop.Uploader.Pool.Invariant.Steps.{Step-Inv}

-- The chunks to upload are distinct, and each has an entry in the session.
pub record IsPending (session : UploadSession) (pending : List ℕ) : Type 0 where
  pub distinct : (x : ℕ) → waiting x (chunk_infos session pending) ≤ 1
  pub inside : All (λ i. i < length session.chunk_progress) pending

total-held-le : (x : ℕ) (ws : List Worker) → total (held x) ws ≤ total is_live ws
total-held-le x [] = omega arith
total-held-le x (checking c ∷ ws) = ground (arith, total-held-le x ws)
total-held-le x (uploading c ∷ ws) = ground (arith, total-held-le x ws)
total-held-le x (fetching ∷ ws) = omega (arith, total-held-le x ws)
total-held-le x (stopped ∷ ws) = omega (arith, total-held-le x ws)

waiting_none : (x : ℕ) (cs : List ChunkInfo) → length cs ≡ 0 → waiting x cs ≡ 0
waiting_none x [] h = refl
waiting_none x (c ∷ cs) h = absurd (omega arith)

settled_entry :
    (size x : ℕ) (entries : List ChunkProgress)
    → 0 < settled size x entries
    → (e : ChunkProgress) × (get_elem? entries x ≡ some e) × (e.loaded ≡ size)
settled_entry size x entries h = elim (Option-cases (get_elem? entries x)) [
  | inl out ↦ absurd (omega (arith, rw (out, settled) at h))
  | inr (e, at) ↦ (
    e,
    at,
    let k : 0 < (if e.loaded == size then 1 else 0) = rw (at, settled) at h in ground arith,
  )
]

module _ (session : UploadSession) (pending : List ℕ) (concurrency : ℕ) (cancelled : Bool)
    (ready : IsPending session pending) (some_worker : 0 < concurrency)
    (room : concurrency < u64_mod) where
  abbrev PoolInv : System → Type 0
  PoolInv =
      Inv (chunk_size_for session) (length session.chunk_progress) (chunk_infos session pending)
        concurrency

  chunk_infos-Fits :
      (is : List ℕ)
      → All (λ i. i < length session.chunk_progress) is
      → All (Fits (chunk_size_for session) (length session.chunk_progress)) (chunk_infos session is)
  unfolding chunk_infos
  chunk_infos-Fits [] h = tt
  chunk_infos-Fits (i ∷ is) h = ((refl, h.0), chunk_infos-Fits is h.1)

  start-Inv : PoolInv (start session pending concurrency cancelled)
  unfolding start
  start-Inv = record {
    active = refl;
    few = omega arith;
    fits_pending = chunk_infos-Fits pending ready.inside;
    fits_workers = tt;
    recorded = refl;
    once = λ x. omega (arith, ready.distinct x);
    kept = λ x h e. omega (arith, h);
    message = refl;
    going = λ e h. omega (arith, some_worker);
  }

  Reach-Inv : {t : System} → Reach (start session pending concurrency cancelled) t → PoolInv t
  Reach-Inv here = start-Inv
  Reach-Inv (next {t = t} r st) =
      Step-Inv (chunk_size_for session) (length session.chunk_progress)
        (chunk_infos session pending) concurrency room t (Reach-Inv r) st

  module _ (t : System) (run : Reach (start session pending concurrency cancelled) t) where
    -- For distinct pending chunks that have entries in the session, and at least one but fewer
    -- than 2 ^ 64 workers: in every state that the pool reaches, the counter that
    -- `wait_for_completion` reads is 0 exactly when every worker has stopped.
    pub active_workers_exact : (t.pool.active_workers ≡ 0) ↔ (total is_live t.workers ≡ 0)
    active_workers_exact =
        (λ e. omega (arith, (Reach-Inv run).active), λ e. omega (arith, (Reach-Inv run).active))

    -- For distinct pending chunks that have entries in the session, and at least one but fewer
    -- than 2 ^ 64 workers: in every state that the pool reaches, two workers that upload a
    -- chunk with the same index are the same worker.
    pub exclusive_chunks :
        (i j : ℕ) (c d : ChunkInfo)
        → get_elem? t.workers i ≡ some (uploading c)
        → get_elem? t.workers j ≡ some (uploading d)
        → c.index ≡ d.index
        → i ≡ j
    exclusive_chunks i j c d at_i at_j same = elim (ℕ_discrete i j) [
      | yes e ↦ e
      | no ne ↦ absurd (
          ground (
            arith,
            (Reach-Inv run).once c.index,
            total-set (held c.index) t.workers i (uploading c) stopped at_i,
            le-total (held c.index) (set t.workers i stopped) j (uploading d)
                (get_elem?-set_ne t.workers {i = i} {j = j} stopped ne ∙ at_j),
          ))
    ]

    -- For distinct pending chunks that have entries in the session, and at least one but fewer
    -- than 2 ^ 64 workers: a pool that finishes without an error and was never cancelled has
    -- recorded every pending chunk with its full size.
    pub Finished-uploaded :
        Finished t
        → get_error t.pool ≡ none
        → t.cancelled ≡ false
        → (x : ℕ) → 0 < waiting x (chunk_infos session pending)
        → (e : ChunkProgress) × (get_elem? t.progress.chunk_progress x ≡ some e)
          × (e.loaded ≡ chunk_size_for session x)
    unfolding get_error
    Finished-uploaded f ok clear x wanted =
        settled_entry (chunk_size_for session x) x t.progress.chunk_progress (
          omega (
            arith,
            (Reach-Inv run).kept x wanted quiet,
            total-held-le x t.workers,
            f.all_stopped,
            waiting_none x t.pool.pending_chunks drained,
          ))
      where
        quiet : halt t.pool.has_error t.cancelled ≡ false
        quiet = ground (arith, (Reach-Inv run).message)

        drained : length t.pool.pending_chunks ≡ 0
        drained = grind (arith, (Reach-Inv run).going quiet, f.all_stopped, f.spawned)

-- ===== src/Uploader/Pool/Invariant/Workers.antt =====
-- The steps of a worker that record no chunk, and a cancellation, keep the invariant.
use cloudreve_desktop.Prelude.{
  length, get_elem?, set, All, u64_mod, ℕ, ◌+◌, ◌<◌, String, ◌≡◌, ap, subst, true, some, List, [],
  ◌∷◌, arith,
}
use cloudreve_desktop.Uploader.Session.{ChunkInfo}
use cloudreve_desktop.Uploader.Pool.{
  take_first, next_chunk, set_error, worker_done, checking, uploading, fetching, stopped, System,
  move, halt, after_fetch, is_live, total,
}
use cloudreve_desktop.Uploader.Pool.Workers.{total-set, All-set, All-get}
use cloudreve_desktop.Uploader.Pool.Invariant.{at_index, waiting, held, Fits, Holds, Inv}

module _ (size : ℕ → ℕ) (entries : ℕ) (initial : List ChunkInfo) (limit : ℕ)
    (room : limit < u64_mod) (s : System) (v : Inv size entries initial limit s) where
  pub cancel-Inv : Inv size entries initial limit (record s { cancelled = true })
  cancel-Inv = record {
    active = v.active;
    few = v.few;
    fits_pending = v.fits_pending;
    fits_workers = v.fits_workers;
    recorded = v.recorded;
    once = v.once;
    kept = λ x h e. ground arith;
    message = v.message;
    going = λ e h. ground arith;
  }

  pub begin-Inv :
      (i : ℕ) (c : ChunkInfo)
      → get_elem? s.workers i ≡ some (checking c)
      → Inv size entries initial limit (move s i (uploading c))
  begin-Inv i c at = record {
    active = omega (arith, v.active, live);
    few = omega (arith, v.few, live);
    fits_pending = v.fits_pending;
    fits_workers =
        All-set (Holds size entries) s.workers i (uploading c)
          (All-get (Holds size entries) s.workers i (checking c) at v.fits_workers) v.fits_workers;
    recorded = v.recorded;
    once = λ x. omega (arith, v.once x, holding x);
    kept = λ x h e. omega (arith, v.kept x h e, holding x);
    message = v.message;
    going = λ e h. omega (arith, v.going e h, live);
  }
    where
      live : total is_live (set s.workers i (uploading c)) + 1 ≡ total is_live s.workers + 1
      live = total-set is_live s.workers i (checking c) (uploading c) at

      holding :
          (x : ℕ)
          → total (held x) (set s.workers i (uploading c)) + at_index x c
            ≡ total (held x) s.workers + at_index x c
      holding x = total-set (held x) s.workers i (checking c) (uploading c) at

  -- A worker that has stopped, with the count of active workers lowered.
  pub leave-Inv :
      (i : ℕ) (c : ChunkInfo)
      → get_elem? s.workers i ≡ some (checking c)
      → halt s.pool.has_error s.cancelled ≡ true
      → Inv size entries initial limit (record (move s i stopped) { pool = worker_done s.pool })
  unfolding worker_done
  leave-Inv i c at halted = record {
    active = omega (arith, v.active, v.few, live);
    few = omega (arith, v.few, live);
    fits_pending = v.fits_pending;
    fits_workers = All-set (Holds size entries) s.workers i stopped tt v.fits_workers;
    recorded = v.recorded;
    once = λ x. omega (arith, v.once x, holding x);
    kept = λ x h e. cc;
    message = v.message;
    going = λ e h. cc;
  }
    where
      live : total is_live (set s.workers i stopped) + 1 ≡ total is_live s.workers + 0
      live = total-set is_live s.workers i (checking c) stopped at

      holding :
          (x : ℕ)
          → total (held x) (set s.workers i stopped) + at_index x c ≡ total (held x) s.workers + 0
      holding x = total-set (held x) s.workers i (checking c) stopped at

  pub fail-Inv :
      (i : ℕ) (c : ChunkInfo) (msg : String)
      → get_elem? s.workers i ≡ some (uploading c)
      → Inv size entries initial limit (record (move s i stopped) {
        pool = worker_done (set_error msg s.pool);
        cancelled = true;
      })
  unfolding worker_done set_error
  fail-Inv i c msg at = record {
    active = omega (arith, v.active, v.few, live);
    few = omega (arith, v.few, live);
    fits_pending = v.fits_pending;
    fits_workers = All-set (Holds size entries) s.workers i stopped tt v.fits_workers;
    recorded = v.recorded;
    once = λ x. omega (arith, v.once x, holding x);
    kept = λ x h e. cc;
    message = ground (arith, v.message);
    going = λ e h. cc;
  }
    where
      live : total is_live (set s.workers i stopped) + 1 ≡ total is_live s.workers + 0
      live = total-set is_live s.workers i (uploading c) stopped at

      holding :
          (x : ℕ)
          → total (held x) (set s.workers i stopped) + at_index x c ≡ total (held x) s.workers + 0
      holding x = total-set (held x) s.workers i (uploading c) stopped at

  pub fetch-Inv :
      (i : ℕ) (cs : List ChunkInfo)
      → get_elem? s.workers i ≡ some fetching
      → s.pool.pending_chunks ≡ cs
      → Inv size entries initial limit (after_fetch s i (take_first s.pool cs))
  unfolding worker_done
  fetch-Inv i [] at e = record {
    active = omega (arith, v.active, v.few, live);
    few = omega (arith, v.few, live);
    fits_pending = v.fits_pending;
    fits_workers = All-set (Holds size entries) s.workers i stopped tt v.fits_workers;
    recorded = v.recorded;
    once = λ x. omega (arith, v.once x, holding x);
    kept = λ x h q. omega (arith, v.kept x h q, holding x);
    message = v.message;
    going = λ q h. absurd (omega (arith, ap (length {A = ChunkInfo}) e));
  }
    where
      live : total is_live (set s.workers i stopped) + 1 ≡ total is_live s.workers + 0
      live = total-set is_live s.workers i fetching stopped at

      holding :
          (x : ℕ) → total (held x) (set s.workers i stopped) + 0 ≡ total (held x) s.workers + 0
      holding x = total-set (held x) s.workers i fetching stopped at
  fetch-Inv i (c ∷ cs) at e = record {
    active = omega (arith, v.active, live);
    few = omega (arith, v.few, live);
    fits_pending = fits.1;
    fits_workers = All-set (Holds size entries) s.workers i (checking c) fits.0 v.fits_workers;
    recorded = v.recorded;
    once = λ x. omega (arith, v.once x, holding x, pending x);
    kept = λ x h q. omega (arith, v.kept x h q, holding x, pending x);
    message = v.message;
    going = λ q h. omega (arith, v.going q (omega (arith, ap (length {A = ChunkInfo}) e)), live);
  }
    where
      live : total is_live (set s.workers i (checking c)) + 1 ≡ total is_live s.workers + 1
      live = total-set is_live s.workers i fetching (checking c) at

      holding :
          (x : ℕ)
          → total (held x) (set s.workers i (checking c)) + 0
            ≡ total (held x) s.workers + at_index x c
      holding x = total-set (held x) s.workers i fetching (checking c) at

      pending : (x : ℕ) → waiting x s.pool.pending_chunks ≡ at_index x c + waiting x cs
      pending x = ap (waiting x) e

      fits : Fits size entries c × All (Fits size entries) cs
      fits = subst (All (Fits size entries)) e v.fits_pending

  -- A worker that gives up because it did not get the lock leaves someone who may.
  pub contend-Inv :
      (i : ℕ)
      → get_elem? s.workers i ≡ some fetching
      → 0 < total is_live (set s.workers i stopped) + s.to_spawn
      → Inv size entries initial limit (after_fetch s i (next_chunk true s.pool))
  unfolding worker_done next_chunk
  contend-Inv i at others = record {
    active = omega (arith, v.active, v.few, live);
    few = omega (arith, v.few, live);
    fits_pending = v.fits_pending;
    fits_workers = All-set (Holds size entries) s.workers i stopped tt v.fits_workers;
    recorded = v.recorded;
    once = λ x. omega (arith, v.once x, holding x);
    kept = λ x h q. omega (arith, v.kept x h q, holding x);
    message = v.message;
    going = λ q h. others;
  }
    where
      live : total is_live (set s.workers i stopped) + 1 ≡ total is_live s.workers + 0
      live = total-set is_live s.workers i fetching stopped at

      holding :
          (x : ℕ) → total (held x) (set s.workers i stopped) + 0 ≡ total (held x) s.workers + 0
      holding x = total-set (held x) s.workers i fetching stopped at

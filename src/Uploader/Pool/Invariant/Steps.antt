-- ===== src/Uploader/Pool/Invariant/Steps.antt =====
-- Every step of the pool keeps the invariant.
use cloudreve_desktop.Prelude.Int.{ℤ}
use cloudreve_desktop.Prelude.{
  length, get_elem?, set, All, u64_mod, ℕ, ◌+◌, ◌<◌, String, ◌≡◌, ap, subst, true, some, List, [],
  ◌∷◌, arith, ◌==◌, if◌then◌else◌, ==_iff, Bool-cases, Option-cases, length-set, get_elem?-set_self,
  get_elem?-set_ne, get_elem?-ne_none, suc, refl, ◌∙◌, inl, inr, Option, none, ◌++◌,
}
use cloudreve_desktop.Uploader.Session.{ChunkInfo, ChunkProgress}
use cloudreve_desktop.Uploader.Pool.{
  worker_started, take_first, next_chunk, checking, uploading, fetching, stopped,
  ChunkProgressState, System, record_entry, record_success, move, after_spawn, Step, cancel, begin,
  leave, succeed, fail, fetch, contend, contend_spawner, spawn, spawn_contend, is_live, total,
}
use cloudreve_desktop.Uploader.Pool.Workers.{
  le-total, total-set, total-append, All-set, All-get, All-snoc,
}
use cloudreve_desktop.Uploader.Pool.Invariant.{at_index, waiting, held, settled, Fits, Holds, Inv}
use cloudreve_desktop.Uploader.Pool.Invariant.Workers.{
  cancel-Inv, begin-Inv, leave-Inv, fail-Inv, fetch-Inv, contend-Inv,
}

module _ (size : ℕ → ℕ) (p : ChunkProgressState) (c : ChunkInfo) (etag : Option String)
    (now : ℤ) where
  length-record_success :
      length (record_success p c etag now).chunk_progress ≡ length p.chunk_progress
  unfolding record_success
  length-record_success = go (get_elem? p.chunk_progress c.index)
    where
      go :
          (o : Option ChunkProgress)
          → length (record_entry p c etag now o).chunk_progress ≡ length p.chunk_progress
      go none = refl
      go (some e) = length-set p.chunk_progress c.index (record e { loaded = c.size; etag = etag })

  -- The entry of the chunk now records its size, and no other entry changes.
  settled-record_success :
      (x : ℕ)
      → c.size ≡ size c.index
      → c.index < length p.chunk_progress
      → settled (size x) x (record_success p c etag now).chunk_progress
        ≡ (if c.index == x then 1 else settled (size x) x p.chunk_progress)
  unfolding record_success
  settled-record_success x fits inside = elim (Option-cases (get_elem? p.chunk_progress c.index)) [
    | inl out ↦ absurd (get_elem?-ne_none p.chunk_progress c.index inside out)
    | inr (e, at) ↦
        rw (at, record_entry)
          (elim (Bool-cases (c.index == x)) [
            | inl same ↦
                let q : c.index ≡ x = (==_iff c.index x).0 same in
                rw (same, ← q)
                  (rw
                    (
                      get_elem?-set_self p.chunk_progress c.index
                          (record e { loaded = c.size; etag = etag }) inside,
                      settled,
                    )
                    (ground arith))
            | inr other ↦ rw other (
                rw (
                  get_elem?-set_ne p.chunk_progress {i = c.index} {j = x}
                      (record e { loaded = c.size; etag = etag }) (λ q. ground arith),
                  settled,
                ))
          ])
  ]

module _ (size : ℕ → ℕ) (entries : ℕ) (initial : List ChunkInfo) (limit : ℕ)
    (room : limit < u64_mod) (s : System) (v : Inv size entries initial limit s) where
  succeed-Inv :
      (i : ℕ) (c : ChunkInfo) (etag : Option String) (now : ℤ)
      → get_elem? s.workers i ≡ some (uploading c)
      → Inv size entries initial limit
          (record (move s i fetching) { progress = record_success s.progress c etag now })
  succeed-Inv i c etag now at = record {
    active = omega (arith, v.active, live);
    few = omega (arith, v.few, live);
    fits_pending = v.fits_pending;
    fits_workers = All-set (Holds size entries) s.workers i fetching tt v.fits_workers;
    recorded = length-record_success size s.progress c etag now ∙ v.recorded;
    once = λ x. omega (arith, v.once x, holding x);
    kept = λ x h q. ground (arith, v.kept x h q, holding x, settling x);
    message = v.message;
    going = λ q h. omega (arith, v.going q h, live);
  }
    where
      live : total is_live (set s.workers i fetching) + 1 ≡ total is_live s.workers + 1
      live = total-set is_live s.workers i (uploading c) fetching at

      holding :
          (x : ℕ)
          → total (held x) (set s.workers i fetching) + at_index x c ≡ total (held x) s.workers + 0
      holding x = total-set (held x) s.workers i (uploading c) fetching at

      fits : Fits size entries c
      fits = All-get (Holds size entries) s.workers i (uploading c) at v.fits_workers

      settling :
          (x : ℕ)
          → settled (size x) x (record_success s.progress c etag now).chunk_progress
            ≡ (if c.index == x then 1 else settled (size x) x s.progress.chunk_progress)
      settling x =
          settled-record_success size s.progress c etag now x fits.0
            (omega (arith, fits.1, v.recorded))

  spawn-Inv :
      (n : ℕ) (cs : List ChunkInfo)
      → s.to_spawn ≡ suc n
      → s.pool.pending_chunks ≡ cs
      → Inv size entries initial limit (after_spawn s n (take_first s.pool cs))
  unfolding worker_started
  spawn-Inv n [] left e = record {
    active = v.active;
    few = omega (arith, v.few);
    fits_pending = v.fits_pending;
    fits_workers = v.fits_workers;
    recorded = v.recorded;
    once = v.once;
    kept = v.kept;
    message = v.message;
    going = λ q h. absurd (omega (arith, ap (length {A = ChunkInfo}) e));
  }
  spawn-Inv n (c ∷ cs) left e = record {
    active = omega (arith, v.active, v.few, live);
    few = omega (arith, v.few, live);
    fits_pending = fits.1;
    fits_workers = All-snoc (Holds size entries) s.workers (checking c) fits.0 v.fits_workers;
    recorded = v.recorded;
    once = λ x. omega (arith, v.once x, holding x, pending x);
    kept = λ x h q. omega (arith, v.kept x h q, holding x, pending x);
    message = v.message;
    going = λ q h. omega (arith, live);
  }
    where
      live : total is_live (s.workers ++ checking c ∷ []) ≡ total is_live s.workers + 1
      live = total-append is_live s.workers (checking c ∷ [])

      holding :
          (x : ℕ)
          → total (held x) (s.workers ++ checking c ∷ [])
            ≡ total (held x) s.workers + (at_index x c + 0)
      holding x = total-append (held x) s.workers (checking c ∷ [])

      pending : (x : ℕ) → waiting x s.pool.pending_chunks ≡ at_index x c + waiting x cs
      pending x = ap (waiting x) e

      fits : Fits size entries c × All (Fits size entries) cs
      fits = subst (All (Fits size entries)) e v.fits_pending

  spawn_contend-Inv :
      (n j : ℕ)
      → s.to_spawn ≡ suc n
      → get_elem? s.workers j ≡ some fetching
      → Inv size entries initial limit (after_spawn s n (next_chunk true s.pool))
  unfolding next_chunk
  spawn_contend-Inv n j left at = record {
    active = v.active;
    few = omega (arith, v.few);
    fits_pending = v.fits_pending;
    fits_workers = v.fits_workers;
    recorded = v.recorded;
    once = v.once;
    kept = v.kept;
    message = v.message;
    going = λ q h. omega (arith, le-total is_live s.workers j fetching at);
  }

  -- Every step keeps the invariant.
  pub Step-Inv : {t : System} → Step s t → Inv size entries initial limit t
  Step-Inv cancel = cancel-Inv size entries initial limit room s v
  Step-Inv (begin i c at clear) = begin-Inv size entries initial limit room s v i c at
  Step-Inv (leave i c at halted) = leave-Inv size entries initial limit room s v i c at halted
  Step-Inv (succeed i c etag now at) = succeed-Inv i c etag now at
  Step-Inv (fail i c msg at) = fail-Inv size entries initial limit room s v i c msg at
  Step-Inv (fetch i at) =
      unfold next_chunk in
      fetch-Inv size entries initial limit room s v i s.pool.pending_chunks at refl
  Step-Inv (contend i j at other ne) = contend-Inv size entries initial limit room s v i at (
      omega (
        arith,
        le-total is_live (set s.workers i stopped) j fetching
            (get_elem?-set_ne s.workers {i = i} {j = j} stopped ne ∙ other),
      ))
  Step-Inv (contend_spawner i at more) =
      contend-Inv size entries initial limit room s v i at (omega arith)
  Step-Inv (spawn n left) = unfold next_chunk in spawn-Inv n s.pool.pending_chunks left refl
  Step-Inv (spawn_contend n j left at) = spawn_contend-Inv n j left at

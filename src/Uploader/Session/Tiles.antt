-- ===== src/Uploader/Session/Tiles.antt =====
-- The chunks of a session tile the file: no gap, no overlap, none empty, nothing past the end.
use cloudreve_desktop.Prelude.{
  u64_mod, ℕ, suc, ◌+◌, ◌-◌, ◌*◌, ◌/◌, ◌≤◌, ◌<◌, min, ◌≡◌, arith, add_u64, sub_u64, zero, ap, ◌↔◌,
  sym,
}
use native.Mathlib.Nat.{le-div_iff_mul-le, lt-div-mul-add, div-eq_of_lt-le, div-mul-le_self}
use cloudreve_desktop.Uploader.Session.{
  UploadSession, calculate_num_chunks, chunk_size_for, chunk_range,
}

abbrev pub chunks : UploadSession → ℕ
chunks s = calculate_num_chunks s.file_size s.chunk_size

-- The server gave a chunk size, and file size and chunk size together fit in a u64.
pub record HasLayout (s : UploadSession) : Type 0 where
  pub chunk_pos : 0 < s.chunk_size
  pub fits : s.file_size + s.chunk_size < u64_mod

-- The sizes of the first `n` chunks together.
pub sum_sizes : UploadSession → ℕ → ℕ
sum_sizes s zero = 0
sum_sizes s (suc n) = sum_sizes s n + chunk_size_for s n

module _ (s : UploadSession) (l : HasLayout s) where
  num_chunks_exact : 0 < s.file_size → chunks s ≡ (s.file_size + s.chunk_size - 1) / s.chunk_size
  unfolding calculate_num_chunks
  num_chunks_exact h = ground (arith, l.chunk_pos, ap (λ t. t / s.chunk_size) no_wrap)
    where
      no_wrap : sub_u64 (add_u64 s.file_size s.chunk_size) 1 ≡ s.file_size + s.chunk_size - 1
      no_wrap = omega (arith, l.chunk_pos, l.fits)

  -- Every chunk of a file that is not empty starts within the file, and the chunks reach its end.
  pub num_chunks_bounds :
      0 < s.file_size
      → ((i : ℕ) → i < chunks s → i * s.chunk_size < s.file_size)
        × (s.file_size ≤ chunks s * s.chunk_size)
  num_chunks_bounds h = rw (num_chunks_exact h) (
    (λ i lt.
        below i
          ((le-div_iff_mul-le {x = suc i} {y = s.file_size + s.chunk_size - 1} l.chunk_pos).0 lt)),
    above _ (lt-div-mul-add {a = s.file_size + s.chunk_size - 1} l.chunk_pos),
  )
    where
      below :
          (i : ℕ)
          → suc i * s.chunk_size ≤ s.file_size + s.chunk_size - 1
          → i * s.chunk_size < s.file_size
      below i h = omega (arith, l.chunk_pos)

      above :
          (q : ℕ)
          → s.file_size + s.chunk_size - 1 < q * s.chunk_size + s.chunk_size
          → s.file_size ≤ q * s.chunk_size
      above q h = omega (arith, l.chunk_pos)

  -- Chunk `i` is the bytes from `i * chunk_size` to the next multiple or the end of the file.
  pub chunk_range_lem :
      (i : ℕ)
      → i * s.chunk_size ≤ s.file_size
      → (chunk_range s i ≡ (i * s.chunk_size, min s.file_size (i * s.chunk_size + s.chunk_size)))
        × (chunk_size_for s i
            ≡ min s.file_size (i * s.chunk_size + s.chunk_size) - i * s.chunk_size)
  unfolding chunk_range
  chunk_range_lem i h = (ground (arith, l.chunk_pos, l.fits), ground (arith, l.chunk_pos, l.fits))

  -- Where the chunk size is not 0, and file and chunk size together fit in a u64: a byte of the
  -- file lies in the range of a chunk exactly if the chunk is the one numbered by its offset
  -- over the chunk size.
  pub chunk_range_unique :
      (i b : ℕ)
      → i < chunks s
      → b < s.file_size
      → (((chunk_range s i).0 ≤ b) × (b < (chunk_range s i).1)) ↔ (i ≡ b / s.chunk_size)
  chunk_range_unique i b lt h =
      let start = (num_chunks_bounds (omega arith)).0 i lt in
      let range = (chunk_range_lem i (omega (arith, start))).0 in
      rw range (
        λ inside. sym (div-eq_of_lt-le s.chunk_size inside.0 (omega (arith, inside.1))),
        λ e.
            rw e
              (div-mul-le_self b s.chunk_size, omega (arith, lt-div-mul-add {a = b} l.chunk_pos)),
      )

  -- The chunks before chunk `n` add up to its offset.
  sum_sizes_lem :
      0 < s.file_size → (n : ℕ) → n ≤ chunks s → sum_sizes s n ≡ min s.file_size (n * s.chunk_size)
  unfolding sum_sizes
  sum_sizes_lem h zero le = omega arith
  sum_sizes_lem h (suc n) le =
      let start = (num_chunks_bounds h).0 n le in
      omega (
        arith,
        sum_sizes_lem h n (omega arith),
        (chunk_range_lem n (omega (arith, start))).1,
        start,
      )

  -- Where the chunk size is not 0, and file and chunk size together fit in a u64: the sizes of
  -- all chunks of a file that is not empty add up to the size of the file.
  pub sum_sizes-file : 0 < s.file_size → sum_sizes s (chunks s) ≡ s.file_size
  sum_sizes-file h =
      omega (arith, sum_sizes_lem h (chunks s) (omega arith), (num_chunks_bounds h).1)

-- ===== src/Uploader/Reader/Reads.antt =====
-- However the reads of a chunk fall, what they give is the chunk's part of the file, encrypted at
-- its place in the file.
use cloudreve_desktop.Prelude.{
  length, take, drop, ℕ, zero, suc, ◌+◌, ◌<◌, ◌≡◌, refl, Option, none, some, [], ◌++◌, arith, ◌≤◌,
  sym, ◌==◌, Bool-cases, length-take, length-drop, take-add, drop-add, min, ap, subst, ◌∙◌, inl,
  inr, List, ◌∷◌, All, ◌-◌, ==_iff,
}
use cloudreve_desktop.Uploader.Encrypt.{Bytes, Cipher, EncryptionConfig}
use cloudreve_desktop.Uploader.Encrypt.Offset.{
  IsValid, IsCtr, encrypt_at_offset-append, encrypt_at_offset-stream,
}
use cloudreve_desktop.Uploader.Reader.{
  Inner, ChunkReader, new, size, encode, fill, poll_read, read_all,
}

abbrev Accepted : Option EncryptionConfig → Type 0
Accepted none = Unit
Accepted (some config) = IsValid config

-- A read with room that gives at least one byte while there is one.
abbrev IsFair : ℕ × Inner → Type 0
IsFair (room, Inner.ready count) = (0 < room) × (0 < count)
IsFair (room, Inner.failed) = ⊥
IsFair (room, Inner.pending) = ⊥

module _ (keystream : Cipher) (ctr : IsCtr keystream) where
  encode-append :
      (encryption : Option EncryptionConfig) (xs ys : Bytes) (offset : ℕ)
      → Accepted encryption
      → encode keystream encryption (xs ++ ys) offset
        ≡ encode keystream encryption xs offset
          ++ encode keystream encryption ys (offset + length xs)
  unfolding encode
  encode-append none xs ys offset v = refl
  encode-append (some config) xs ys offset v =
      encrypt_at_offset-append keystream ctr config v xs ys offset

  encode_nil :
      (encryption : Option EncryptionConfig) (offset : ℕ)
      → Accepted encryption
      → encode keystream encryption [] offset ≡ []
  unfolding encode
  encode_nil none offset v = refl
  encode_nil (some config) offset v = encrypt_at_offset-stream keystream ctr config v [] offset

  -- What a run of polls gives: the next `count` bytes of the file, encoded, and the reader after them.
  record Delivers (r : ChunkReader) (out : Bytes) (r' : ChunkReader) : Type 0 where
    count : ℕ
    within : count ≤ length r.rest
    bytes : out ≡ encode keystream r.encryption (take count r.rest) (r.start_offset + r.position)
    rest : r'.rest ≡ drop count r.rest
    position : r'.position ≡ r.position + count
    remaining : r'.remaining + count ≡ r.remaining
    same_encryption : r'.encryption ≡ r.encryption
    same_start : r'.start_offset ≡ r.start_offset

  nothing : (r : ChunkReader) → Accepted r.encryption → Delivers r [] r
  nothing r v = record {
    count = 0;
    within = omega arith;
    bytes = sym (encode_nil r.encryption (r.start_offset + r.position) v);
    rest = refl;
    position = omega arith;
    remaining = omega arith;
    same_encryption = refl;
    same_start = refl;
  }

  fill_lem :
      (r : ChunkReader) (n : ℕ)
      → Accepted r.encryption
      → n ≤ length r.rest
      → n ≤ r.remaining
      → let (poll, out, r') = fill keystream r n in Delivers r out r'
  unfolding fill
  fill_lem r zero v fits left = nothing r v
  fill_lem r (suc n) v fits left = record {
    count = suc n;
    within = fits;
    bytes = refl;
    rest = refl;
    position = refl;
    remaining = omega arith;
    same_encryption = refl;
    same_start = refl;
  }

  poll_read_lem :
      (r : ChunkReader) (room : ℕ) (inner : Inner)
      → Accepted r.encryption
      → let (poll, out, r') = poll_read keystream r room inner in Delivers r out r'
  unfolding poll_read
  poll_read_lem r room (Inner.ready count) v = elim (Bool-cases (r.remaining == 0)) [
    | inl done ↦ rw done (nothing r v)
    | inr more ↦ rw more (
        fill_lem r (min count (min (min r.remaining room) (length r.rest))) v (omega arith)
          (omega arith))
  ]
  poll_read_lem r room Inner.failed v = elim (Bool-cases (r.remaining == 0)) [
    | inl done ↦ rw done (nothing r v)
    | inr more ↦ rw more (nothing r v)
  ]
  poll_read_lem r room Inner.pending v = elim (Bool-cases (r.remaining == 0)) [
    | inl done ↦ rw done (nothing r v)
    | inr more ↦ rw more (nothing r v)
  ]

  sequence_lem :
      (r r1 r2 : ChunkReader) (out1 out2 : Bytes)
      → Accepted r.encryption
      → Delivers r out1 r1
      → Delivers r1 out2 r2
      → Delivers r (out1 ++ out2) r2
  sequence_lem r r1 r2 out1 out2 v d1 d2 = record {
    count = d1.count + d2.count;
    within = omega (arith, d1.within, d2.within, ap length d1.rest, length-drop d1.count r.rest);
    bytes = bytes_lem;
    rest = d2.rest ∙ ap (drop d2.count) d1.rest ∙ sym (drop-add d1.count d2.count r.rest);
    position = omega (arith, d1.position, d2.position);
    remaining = omega (arith, d1.remaining, d2.remaining);
    same_encryption = d2.same_encryption ∙ d1.same_encryption;
    same_start = d2.same_start ∙ d1.same_start;
  }
    where
      offset : ℕ
      offset = r.start_offset + r.position

      next_offset : r1.start_offset + r1.position ≡ offset + length (take d1.count r.rest)
      next_offset =
          omega (arith, d1.position, d1.same_start, d1.within, length-take d1.count r.rest)

      second :
          out2
          ≡ encode keystream r.encryption
              (take d2.count (drop d1.count r.rest))
              (offset + length (take d1.count r.rest))
      second = cc (d2.bytes, d1.rest, d1.same_encryption, next_offset)

      bytes_lem :
          out1 ++ out2 ≡ encode keystream r.encryption (take (d1.count + d2.count) r.rest) offset
      bytes_lem =
          rw
            (
              take-add d1.count d2.count r.rest,
              encode-append r.encryption (take d1.count r.rest)
                  (take d2.count (drop d1.count r.rest)) offset v,
            )
            (cc (d1.bytes, second))

  read_all_lem :
      (polls : List (ℕ × Inner)) (r : ChunkReader)
      → Accepted r.encryption
      → Delivers r (read_all keystream r polls).0 (read_all keystream r polls).1
  unfolding read_all
  read_all_lem [] r v = nothing r v
  read_all_lem ((room, inner) ∷ polls) r v =
      let (poll, out, r1) = poll_read keystream r room inner in
      let d = poll_read_lem r room inner v in
      sequence_lem r r1 _ out _ v d
        (read_all_lem polls r1 (subst Accepted (sym d.same_encryption) v))

  -- A fair poll takes something from what remains.
  poll_read_progress :
      (r : ChunkReader) (poll : ℕ × Inner)
      → IsFair poll
      → r.remaining ≤ length r.rest
      → let r' = (poll_read keystream r poll.0 poll.1).2 in
        (r'.remaining ≤ r.remaining - 1) × (r'.remaining ≤ length r'.rest)
  unfolding poll_read fill
  poll_read_progress r (room, Inner.ready count) (has_room, has_bytes) fits =
      elim (Bool-cases (r.remaining == 0)) [
        | inl done ↦ rw done (omega (arith, (==_iff r.remaining 0).0 done), fits)
        | inr more ↦ rw more (
            fill_progress (min count (min (min r.remaining room) (length r.rest))) (ground arith)
              (ground arith))
      ]
    where
      fill_progress :
          (n : ℕ)
          → 0 < n
          → n ≤ r.remaining
          → let r' = (fill keystream r n).2 in
            (r'.remaining ≤ r.remaining - 1) × (r'.remaining ≤ length r'.rest)
      fill_progress zero h k = absurd (omega arith)
      fill_progress (suc n) h k = (omega arith, omega (arith, length-drop (suc n) r.rest))
  poll_read_progress r (room, Inner.failed) fair fits = elim fair [ ]
  poll_read_progress r (room, Inner.pending) fair fits = elim fair [ ]

  read_all_progress :
      (polls : List (ℕ × Inner)) (r : ChunkReader)
      → All IsFair polls
      → r.remaining ≤ length r.rest
      → (read_all keystream r polls).1.remaining ≤ r.remaining - length polls
  unfolding read_all
  read_all_progress [] r fair fits = omega arith
  read_all_progress (poll ∷ polls) r (first, fair) fits =
      let (less, fits') = poll_read_progress r poll first fits in
      omega
        (arith, less, read_all_progress polls (poll_read keystream r poll.0 poll.1).2 fair fits')

  -- For a cipher in CTR mode, and no encryption or an IV of 16 bytes: whatever the polls of the
  -- reader of a chunk give (fewer bytes than were asked for, errors, no data yet, the end of
  -- the file), what was read is a prefix of the chunk's part of the file, encrypted at the
  -- chunk's offset as if in one piece, the reader's position is its length, and position and
  -- remaining bytes add up to the size of the chunk.
  pub read_all_prefix :
      (file : Bytes) (offset chunk_size : ℕ) (encryption : Option EncryptionConfig)
      (polls : List (ℕ × Inner))
      → Accepted encryption
      → let (out, r) = read_all keystream (new file offset chunk_size encryption) polls in
        (out ≡ encode keystream encryption (take r.position (drop offset file)) offset)
        × (r.position ≤ length (drop offset file))
        × (size r ≡ chunk_size)
  unfolding new size
  read_all_prefix file offset chunk_size encryption polls v =
      let d = read_all_lem polls (new file offset chunk_size encryption) v in
      let at : (read_all keystream (new file offset chunk_size encryption) polls).1.position
          ≡ d.count =
        omega (arith, d.position) in
      (
        rw at (
            d.bytes
            ∙ ap (encode keystream encryption (take d.count (drop offset file))) (omega arith)),
        omega (arith, d.within, at),
        omega (arith, d.remaining, at),
      )

  -- For a cipher in CTR mode, and no encryption or an IV of 16 bytes: where the file holds the
  -- whole chunk, at least as many polls as the chunk has bytes, each with room and giving a
  -- byte while there is one, yield all of it: the chunk's part of the file, encrypted at the
  -- chunk's offset.
  pub read_all_chunk :
      (file : Bytes) (offset chunk_size : ℕ) (encryption : Option EncryptionConfig)
      (polls : List (ℕ × Inner))
      → Accepted encryption
      → offset + chunk_size ≤ length file
      → All IsFair polls
      → chunk_size ≤ length polls
      → (read_all keystream (new file offset chunk_size encryption) polls).0
        ≡ encode keystream encryption (take chunk_size (drop offset file)) offset
  unfolding new size
  read_all_chunk file offset chunk_size encryption polls v inside fair enough =
      let start = new file offset chunk_size encryption in
      let (bytes, short, whole) = read_all_prefix file offset chunk_size encryption polls v in
      let left = read_all_progress polls start fair (omega (arith, length-drop offset file)) in
      let all_read : (read_all keystream start polls).1.position ≡ chunk_size =
        omega (arith, whole, left) in
      bytes ∙ ap (λ n. encode keystream encryption (take n (drop offset file)) offset) all_read

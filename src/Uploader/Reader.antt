-- ===== src/Uploader/Reader.antt =====
-- `ChunkReader` of uploader/chunk.rs: the part of a file that is a chunk, encrypted as it is read.
-- The buffered file below it is a list of bytes and, for each poll, what that poll gives.
pub mod Reads
use cloudreve_desktop.Prelude.{
  ◌==◌, if◌then◌else◌, length, take, drop, ℕ, ◌+◌, ◌-◌, min, Option, none, some, List, [], ◌∷◌,
  ◌++◌, zero, suc,
}
use cloudreve_desktop.Uploader.Encrypt.{Bytes, Cipher, EncryptionConfig, encrypt_at_offset}

-- What a poll of the inner reader gives: at most `count` bytes, an error, or nothing yet.
pub data Inner : Type 0 where
  ready : ℕ → Inner
  failed pending : Inner

pub data Poll : Type 0 where
  ready failed pending : Poll

pub record ChunkReader : Type 0 where
  pub rest : Bytes  -- the inner reader, from its position on
  pub encryption : Option EncryptionConfig
  pub start_offset : ℕ
  pub position : ℕ
  pub remaining : ℕ

pub new : Bytes → ℕ → ℕ → Option EncryptionConfig → ChunkReader
new file offset size encryption = record {
  rest = drop offset file;
  encryption = encryption;
  start_offset = offset;
  position = 0;
  remaining = size;
}

pub size : ChunkReader → ℕ
size r = r.position + r.remaining

pub encode : Cipher → Option EncryptionConfig → Bytes → ℕ → Bytes
encode keystream none bytes file_offset = bytes
encode keystream (some config) bytes file_offset =
    encrypt_at_offset keystream config bytes file_offset

-- The bytes that a read of at most `max_read` bytes fills in, and the reader after it.
fill : Cipher → ChunkReader → ℕ → Poll × Bytes × ChunkReader
unfolding encode
fill keystream r zero = (Poll.ready, [], r)
fill keystream r (suc n) =
    let bytes_read = suc n in
    (
      Poll.ready,
      encode keystream r.encryption (take bytes_read r.rest) (r.start_offset + r.position),
      record r {
        rest = drop bytes_read r.rest;
        position = r.position + bytes_read;
        remaining = r.remaining - bytes_read;
      },
    )

-- `room` is what is left of the caller's buffer; the bytes are what the call appends to it.
pub poll_read : Cipher → ChunkReader → ℕ → Inner → Poll × Bytes × ChunkReader
unfolding fill
poll_read keystream r room (Inner.ready count) =
    let max_read = min r.remaining room in
    let filled = fill keystream r (min count (min max_read (length r.rest))) in
    if r.remaining == 0 then (Poll.ready, [], r) else filled
poll_read keystream r room Inner.failed =
    if r.remaining == 0 then (Poll.ready, [], r) else (Poll.failed, [], r)
poll_read keystream r room Inner.pending =
    if r.remaining == 0 then (Poll.ready, [], r) else (Poll.pending, [], r)

-- A sequence of polls, and all that they read.
pub read_all : Cipher → ChunkReader → List (ℕ × Inner) → Bytes × ChunkReader
unfolding poll_read
read_all keystream r [] = ([], r)
read_all keystream r ((room, inner) ∷ polls) =
    let (poll, bytes, r') = poll_read keystream r room inner in
    let (later, end) = read_all keystream r' polls in (bytes ++ later, end)

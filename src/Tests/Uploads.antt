-- ===== src/Tests/Uploads.antt =====
-- Sessions, encryption and reading at concrete inputs.
use cloudreve_desktop.Prelude.{
  length, take, drop, replicate, ℕ, ◌+◌, ◌/◌, ◌%◌, ◌^◌, ◌≤◌, ◌<◌, ◌≡◌, refl, ◌↔◌, false, none, some,
  List, [], ◌∷◌, ◌++◌, arith, true,
}
use cloudreve_desktop.Prelude.Int.{pos}
use cloudreve_desktop.Uploader.Session.{
  PolicyType, UploadCredential, UploadSession, new_progress, new_session, is_expired,
  all_chunks_complete, complete_chunk, update_chunk_progress, record_loaded, total_uploaded,
  upload_url_for_chunk, chunk_concurrency, pending_chunks, chunk_range, calculate_num_chunks,
  chunk_size_for, from_api,
}
use cloudreve_desktop.Uploader.Session.Tiles.{HasLayout, chunk_range_unique}
use cloudreve_desktop.Uploader.Encrypt.{
  increment_counter, Bytes, Cipher, EncryptionConfig, encrypt_at_offset, xor_from,
}
use cloudreve_desktop.Uploader.Encrypt.Counter.{increment_counter-add, big_endian}
use cloudreve_desktop.Uploader.Encrypt.Offset.{
  encrypt_at_offset-append, IsValid, IsCtr, file_keystream, encrypt_at_offset-stream,
}
use cloudreve_desktop.Uploader.Reader.{size, Inner, new, encode, read_all}
use cloudreve_desktop.Uploader.Reader.Reads.{read_all_prefix, read_all_chunk}

-- Ten bytes in chunks of four, two of which are complete.
abbrev pub credential : UploadCredential
credential = record {
  session_id = "session";
  expires = pos 100;
  chunk_size = pos 4;
  upload_urls = some ("https://a" ∷ "https://b" ∷ []);
  credential = "secret";
  callback_secret = "callback";
  complete_url = none;
  storage_policy = none;
  mime_type = none;
  upload_policy = none;
  encrypt_metadata = none;
}

abbrev pub session : UploadSession
session = record {
  id = "session";
  task_id = "task";
  drive_id = "drive";
  local_path = "C:/a.txt";
  remote_uri = "cloudreve://my/a.txt";
  file_size = 10;
  chunk_size = 4;
  policy_type = PolicyType.local;
  credential = credential;
  relay = false;
  chunk_progress =
      record { index = 0; loaded = 4; etag = none }
      ∷ (record { index = 1; loaded = 4; etag = none } ∷ (new_progress 2 ∷ []));
  encrypt_metadata = none;
  expires_at = pos 100;
  created_at = pos 1;
  updated_at = pos 1;
}

session-HasLayout : HasLayout session
session-HasLayout = record { chunk_pos = omega arith; fits = omega arith }

chunk_range_unique_example :
    (((chunk_range session 1).0 ≤ 5) × (5 < (chunk_range session 1).1)) ↔ (1 ≡ 5 / 4)
chunk_range_unique_example =
    chunk_range_unique session session-HasLayout 1 5 (unfold calculate_num_chunks in omega arith)
      (omega arith)

pending_chunks_test : pending_chunks session ≡ 2 ∷ []
unfolding pending_chunks
pending_chunks_test = refl

-- A counter block one below an overflow of its two last bytes.
abbrev counter : Bytes
counter = replicate 14 1 ++ 255 ∷ 255 ∷ []

abbrev config : EncryptionConfig
config = record { key = 7 ∷ []; iv = counter }

config-IsValid : IsValid config
config-IsValid = record { iv_length = refl; iv_bytes = omega arith }

-- A cipher of the documented form: block `n` of key `k` is `n + length k`, plus the position.
block : Bytes → ℕ → ℕ → ℕ
block key n j = (n + length key + j) % 256

keystream : Cipher
unfolding block
keystream key counter i = block key ((big_endian 16 counter + i / 16) % 2 ^ 128) (i % 16)

keystream-IsCtr : IsCtr keystream
unfolding keystream
keystream-IsCtr = record { block = block; agrees = λ key counter i l b. refl }

increment_counter-add_example :
    big_endian 16 (increment_counter counter 3) ≡ (big_endian 16 counter + 3) % 2 ^ 128
increment_counter-add_example = increment_counter-add counter 3 refl (omega arith)

encrypt_at_offset-append_example :
    encrypt_at_offset keystream config (1 ∷ 2 ∷ 3 ∷ []) 14
    ≡ encrypt_at_offset keystream config (1 ∷ 2 ∷ []) 14
      ++ encrypt_at_offset keystream config (3 ∷ []) 16
encrypt_at_offset-append_example =
    encrypt_at_offset-append keystream keystream-IsCtr config config-IsValid (1 ∷ 2 ∷ []) (3 ∷ [])
      14

encrypt_at_offset-stream_example :
    encrypt_at_offset keystream config (1 ∷ 2 ∷ 3 ∷ []) 14
    ≡ xor_from (file_keystream keystream keystream-IsCtr config config-IsValid) 14 (1 ∷ 2 ∷ 3 ∷ [])
encrypt_at_offset-stream_example =
    encrypt_at_offset-stream keystream keystream-IsCtr config config-IsValid (1 ∷ 2 ∷ 3 ∷ []) 14

abbrev file : Bytes
file = 10 ∷ 11 ∷ 12 ∷ 13 ∷ 14 ∷ 15 ∷ []

abbrev short_polls : List (ℕ × Inner)
short_polls = (8, Inner.ready 1) ∷ ((1, Inner.ready 9) ∷ ((8, Inner.ready 9) ∷ []))

abbrev broken_polls : List (ℕ × Inner)
broken_polls = (8, Inner.ready 2) ∷ ((8, Inner.pending) ∷ ((8, Inner.failed) ∷ []))

read_all_prefix_example :
    let (out, r) = read_all keystream (new file 1 4 (some config)) broken_polls in
    (out ≡ encode keystream (some config) (take r.position (drop 1 file)) 1)
    × (r.position ≤ 5)
    × (size r ≡ 4)
read_all_prefix_example =
    read_all_prefix keystream keystream-IsCtr file 1 4 (some config) broken_polls config-IsValid

read_all_chunk_example :
    (read_all keystream (new file 1 3 (some config)) short_polls).0
    ≡ encode keystream (some config) (take 3 (drop 1 file)) 1
read_all_chunk_example =
    read_all_chunk keystream keystream-IsCtr file 1 3 (some config) short_polls config-IsValid
      (omega arith) (omega arith) (omega arith)

session_test :
    (is_expired session (pos 99) ≡ false)
    × (is_expired session (pos 100) ≡ true)
    × (all_chunks_complete session ≡ false)
    × (total_uploaded session ≡ 8)
    × (upload_url_for_chunk session 1 ≡ some "https://b")
    × (upload_url_for_chunk session 2 ≡ none)
    × (chunk_concurrency session ≡ 1)
unfolding is_expired all_chunks_complete total_uploaded upload_url_for_chunk chunk_concurrency
session_test = (refl, refl, refl, refl, refl, refl, refl)

-- A new session for the same file has three chunks, none of them complete.
new_session_test :
    (new_session "task" "drive" "C:/a.txt" "cloudreve://my/a.txt" 10 credential
      (pos 1)).chunk_progress
    ≡ new_progress 0 ∷ (new_progress 1 ∷ (new_progress 2 ∷ []))
unfolding new_session calculate_num_chunks from_api
new_session_test = refl

-- The last chunk is complete with its two bytes; a chunk that does not exist changes nothing.
complete_chunk_test :
    (all_chunks_complete (complete_chunk session 2 (some "etag") (pos 7)) ≡ true)
    × (total_uploaded (complete_chunk session 2 (some "etag") (pos 7)) ≡ 10)
    × (update_chunk_progress session 3 1 none (pos 7) ≡ session)
unfolding all_chunks_complete complete_chunk record_loaded chunk_size_for total_uploaded
    update_chunk_progress
complete_chunk_test = (refl, refl, refl)

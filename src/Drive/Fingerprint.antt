-- ===== src/Drive/Fingerprint.antt =====
-- The content hashes that drive/sync.rs reads from a metadata map. The operations of the standard
-- library on text, RFC 3339 parsing (chrono), the hash of a local file, the ignore matcher and the
-- clock-stamped conflict name are a parameter, `Host`.
use cloudreve_desktop.Prelude.{
  ◌==◌, if◌then◌else◌, ℕ, String, Bool, ◌||◌, Option, none, some, List, [], ◌∷◌, str_eq, ◌>>=◌,
}
use cloudreve_desktop.Prelude.Int.{ℤ}
use cloudreve_desktop.Drive.Files.{FileResponse}

pub data HashAlgorithm : Type 0 where
  md5 sha1 sha256 sha512 : HashAlgorithm

pub record Host : Type 0 where
  -- `value.trim().trim_matches('"').to_ascii_lowercase().replace('-', "")`
  pub clean_hash : String → String
  pub all_hex_digits : String → Bool
  -- the alphanumeric characters in lower case
  pub clean_key : String → String
  pub byte_length : String → ℕ
  pub eq_ignore_ascii_case : String → String → Bool
  pub parse_rfc3339_timestamp : String → Option ℤ
  pub calculate_file_hash : String → HashAlgorithm → Option String
  pub generate_conflict_path : String → String
  pub is_ignored : String → Bool

from_hex_len : ℕ → Option HashAlgorithm
from_hex_len n =
    if n == 32
    then some HashAlgorithm.md5
    else if n == 40
    then some HashAlgorithm.sha1
    else if n == 64
    then some HashAlgorithm.sha256
    else if n == 128
    then some HashAlgorithm.sha512
    else none

pub record FileHashFingerprint : Type 0 where
  pub algorithm : HashAlgorithm
  pub value : String

normalize_hash_value : Host → String → Option String
normalize_hash_value host value =
    let normalized = host.clean_hash value in
    if host.all_hex_digits normalized then some normalized else none

hash_fingerprint_from_value : Host → String → Option FileHashFingerprint
unfolding normalize_hash_value from_hex_len
hash_fingerprint_from_value host value = do
  normalized ← normalize_hash_value host value
  algorithm ← from_hex_len (host.byte_length normalized)
  some (record { algorithm = algorithm; value = normalized })

hash_metadata_keys : List (String × HashAlgorithm)
hash_metadata_keys =
    ("md5", HashAlgorithm.md5)
    ∷ ("hashmd5", HashAlgorithm.md5)
    ∷ ("checksummd5", HashAlgorithm.md5)
    ∷ ("sha1", HashAlgorithm.sha1)
    ∷ ("hashsha1", HashAlgorithm.sha1)
    ∷ ("checksumsha1", HashAlgorithm.sha1)
    ∷ ("sha256", HashAlgorithm.sha256)
    ∷ ("hashsha256", HashAlgorithm.sha256)
    ∷ ("checksumsha256", HashAlgorithm.sha256)
    ∷ ("sha512", HashAlgorithm.sha512)
    ∷ ("hashsha512", HashAlgorithm.sha512)
    ∷ ("checksumsha512", HashAlgorithm.sha512)
    ∷ []

-- The first of a list that is there.
or_first : Option FileHashFingerprint → Option FileHashFingerprint → Option FileHashFingerprint
or_first none b = b
or_first (some a) b = some a

with_algorithm : HashAlgorithm → Option String → Option FileHashFingerprint
with_algorithm algorithm none = none
with_algorithm algorithm (some v) = some (record { algorithm = algorithm; value = v })

-- The exact keys: the first of the table that matches with a value that normalizes.
exact_key : Host → String → String → List (String × HashAlgorithm) → Option FileHashFingerprint
unfolding or_first with_algorithm normalize_hash_value
exact_key host normalized_key value [] = none
exact_key host normalized_key value ((hash_key, algorithm) ∷ keys) =
    let found = with_algorithm algorithm (normalize_hash_value host value) in
    or_first (if str_eq normalized_key hash_key then found else none)
      (exact_key host normalized_key value keys)

-- One entry of the map.
entry_fingerprint : Host → String → String → Option FileHashFingerprint
unfolding exact_key hash_metadata_keys or_first hash_fingerprint_from_value
entry_fingerprint host key value =
    let normalized_key = host.clean_key key in
    let generic = str_eq normalized_key "hash" || str_eq normalized_key "checksum" in
    or_first (exact_key host normalized_key value hash_metadata_keys)
      (if generic then hash_fingerprint_from_value host value else none)

-- The entries in the order in which the map iterates.
unfoldable pub metadata_hash_fingerprint :
    Host → List (String × String) → Option FileHashFingerprint
unfolding entry_fingerprint or_first
metadata_hash_fingerprint host [] = none
metadata_hash_fingerprint host ((key, value) ∷ metadata) =
    or_first (entry_fingerprint host key value) (metadata_hash_fingerprint host metadata)

unfoldable pub remote_file_hash_fingerprint : Host → FileResponse → Option FileHashFingerprint
remote_file_hash_fingerprint host remote = elim remote.metadata [
  | none ↦ metadata_hash_fingerprint host []
  | some metadata ↦ metadata_hash_fingerprint host metadata
]

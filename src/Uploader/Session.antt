-- ===== src/Uploader/Session.antt =====
-- uploader/session.rs, with `ChunkProgress` and `ChunkInfo` of uploader/chunk.rs and `PolicyType` of
-- uploader/providers/mod.rs. A clock reading is an argument, `now`. Of the server's credential
-- (crates/cloudreve-api/src/models/explorer.rs) the fields that the uploader reads are modelled.
pub mod Tiles
use cloudreve_desktop.Prelude.Int.{ℤ, ltb_ℤ, pos, negsuc}
use cloudreve_desktop.Prelude.{
  ltb, ◌==◌, if◌then◌else◌, length, get_elem?, set, filter_by, all, u64_mod, add_u64, sub_u64,
  mul_u64, as_u64, ℕ, zero, suc, ◌+◌, ◌-◌, ◌/◌, ◌%◌, min, max, String, Bool, false, not, ◌||◌,
  Option, none, some, List, [], ◌∷◌, map,
}

pub data PolicyType : Type 0 where
  local remote oss qiniu onedrive cos upyun s3 ks3 obs : PolicyType

pub data ApiPolicyType : Type 0 where
  local remote oss qiniu onedrive cos upyun s3 ks3 obs load_balance : ApiPolicyType

unfoldable pub from_api : ApiPolicyType → PolicyType
from_api ApiPolicyType.local = PolicyType.local
from_api ApiPolicyType.remote = PolicyType.remote
from_api ApiPolicyType.oss = PolicyType.oss
from_api ApiPolicyType.qiniu = PolicyType.qiniu
from_api ApiPolicyType.onedrive = PolicyType.onedrive
from_api ApiPolicyType.cos = PolicyType.cos
from_api ApiPolicyType.upyun = PolicyType.upyun
from_api ApiPolicyType.s3 = PolicyType.s3
from_api ApiPolicyType.ks3 = PolicyType.ks3
from_api ApiPolicyType.obs = PolicyType.obs
from_api ApiPolicyType.load_balance = PolicyType.local

pub record StoragePolicy : Type 0 where
  pub policy_type : ApiPolicyType
  pub relay : Option Bool
  pub chunk_concurrency : Option ℤ  -- i32
  pub streaming_encryption : Option Bool

pub record EncryptMetadata : Type 0 where
  pub key_plain_text : String
  pub iv : String

pub record UploadCredential : Type 0 where
  pub session_id : String
  pub expires : ℤ
  pub chunk_size : ℤ
  pub upload_urls : Option (List String)
  pub credential : String
  pub callback_secret : String
  pub complete_url : Option String
  pub storage_policy : Option StoragePolicy
  pub mime_type : Option String
  pub upload_policy : Option String
  pub encrypt_metadata : Option EncryptMetadata

pub record ChunkProgress : Type 0 where
  pub index : ℕ
  pub loaded : ℕ
  pub etag : Option String

pub record ChunkInfo : Type 0 where
  pub index : ℕ
  pub size : ℕ
  pub offset : ℕ

abbrev pub new_progress : ℕ → ChunkProgress
new_progress index = record { index = index; loaded = 0; etag = none }

abbrev pub is_complete : ChunkProgress → Bool
is_complete c = ltb 0 c.loaded

pub record UploadSession : Type 0 where
  pub id : String
  pub task_id : String
  pub drive_id : String
  pub local_path : String
  pub remote_uri : String
  pub file_size : ℕ
  pub chunk_size : ℕ
  pub policy_type : PolicyType
  pub credential : UploadCredential
  pub relay : Bool
  pub chunk_progress : List ChunkProgress
  pub encrypt_metadata : Option EncryptMetadata
  pub expires_at : ℤ
  pub created_at : ℤ
  pub updated_at : ℤ

unfoldable pub calculate_num_chunks : ℕ → ℕ → ℕ
calculate_num_chunks file_size chunk_size =
    if file_size == 0 || chunk_size == 0
    then 1
    else sub_u64 (add_u64 file_size chunk_size) 1 / chunk_size

-- `(i..i + n).map(ChunkProgress::new)`.
abbrev fresh_progress : ℕ → ℕ → List ChunkProgress
fresh_progress i zero = []
fresh_progress i (suc n) = new_progress i ∷ fresh_progress (suc i) n

abbrev policy_of : Option StoragePolicy → PolicyType
policy_of none = PolicyType.local
policy_of (some p) = from_api p.policy_type

abbrev or_false : Option Bool → Bool
or_false none = false
or_false (some b) = b

abbrev relay_of : Option StoragePolicy → Bool
relay_of none = false
relay_of (some p) = or_false p.relay

-- `UploadSession::new`.
unfoldable pub new_session :
    String → String → String → String → ℕ → UploadCredential → ℤ → UploadSession
new_session task_id drive_id local_path remote_uri file_size credential now = record {
  id = credential.session_id;
  task_id = task_id;
  drive_id = drive_id;
  local_path = local_path;
  remote_uri = remote_uri;
  file_size = file_size;
  chunk_size = as_u64 credential.chunk_size;
  policy_type = policy_of credential.storage_policy;
  credential = credential;
  relay = relay_of credential.storage_policy;
  chunk_progress = fresh_progress 0 (calculate_num_chunks file_size (as_u64 credential.chunk_size));
  encrypt_metadata = credential.encrypt_metadata;
  expires_at = credential.expires;
  created_at = now;
  updated_at = now;
}

unfoldable pub is_expired : UploadSession → ℤ → Bool
is_expired s now = not (ltb_ℤ now s.expires_at)

unfoldable pub num_chunks : UploadSession → ℕ
num_chunks s = length s.chunk_progress

unfoldable pub pending_chunks : UploadSession → List ℕ
pending_chunks s =
    map (λ (c : ChunkProgress). c.index) (filter_by (λ c. not (is_complete c)) s.chunk_progress)

unfoldable pub all_chunks_complete : UploadSession → Bool
all_chunks_complete s = all is_complete s.chunk_progress

unfoldable pub chunk_size_for : UploadSession → ℕ → ℕ
chunk_size_for s chunk_index =
    if s.chunk_size == 0
    then s.file_size
    else min (s.file_size - mul_u64 chunk_index s.chunk_size) s.chunk_size

unfoldable pub chunk_range : UploadSession → ℕ → ℕ × ℕ
unfolding chunk_size_for
chunk_range s chunk_index = if s.chunk_size == 0 then (0, s.file_size) else (
  mul_u64 chunk_index s.chunk_size,
  add_u64 (mul_u64 chunk_index s.chunk_size) (chunk_size_for s chunk_index),
)

abbrev keep_etag : Option String → Option String → Option String
keep_etag none old = old
keep_etag (some tag) old = some tag

-- The write to one entry that `update_chunk_progress` and `complete_chunk` make.
unfoldable pub record_loaded :
    UploadSession → ℕ → ℕ → Option String → ℤ → Option ChunkProgress → UploadSession
record_loaded s chunk_index loaded etag now none = s
record_loaded s chunk_index loaded etag now (some c) = record s {
  chunk_progress =
      set s.chunk_progress chunk_index (record c { loaded = loaded; etag = keep_etag etag c.etag });
  updated_at = now;
}

unfoldable pub update_chunk_progress : UploadSession → ℕ → ℕ → Option String → ℤ → UploadSession
unfolding record_loaded
update_chunk_progress s chunk_index loaded etag now =
    record_loaded s chunk_index loaded etag now (get_elem? s.chunk_progress chunk_index)

unfoldable pub complete_chunk : UploadSession → ℕ → Option String → ℤ → UploadSession
unfolding record_loaded chunk_size_for
complete_chunk s chunk_index etag now =
    record_loaded s chunk_index (chunk_size_for s chunk_index) etag now
      (get_elem? s.chunk_progress chunk_index)

abbrev pub sum_loaded : List ChunkProgress → ℕ
sum_loaded [] = 0
sum_loaded (c ∷ cs) = c.loaded + sum_loaded cs

unfoldable pub total_uploaded : UploadSession → ℕ
total_uploaded s = sum_loaded s.chunk_progress % u64_mod

unfoldable pub upload_url_for_chunk : UploadSession → ℕ → Option String
upload_url_for_chunk s chunk_index = elim s.credential.upload_urls [
  | none ↦ none
  | some urls ↦ get_elem? urls chunk_index
]

-- `c.max(1)` of an i32 as usize.
abbrev at_least_one : ℤ → ℕ
at_least_one (pos n) = max n 1
at_least_one (negsuc n) = 1

abbrev concurrency_of : Option ℤ → ℕ
concurrency_of none = 1
concurrency_of (some c) = at_least_one c

unfoldable pub chunk_concurrency : UploadSession → ℕ
chunk_concurrency s = elim s.credential.storage_policy [
  | none ↦ 1
  | some p ↦ concurrency_of p.chunk_concurrency
]

-- ===== src/Uploader/Upload.antt =====
-- uploader/mod.rs: one upload from its session to its completion, over the table of upload sessions
-- (inventory/db/upload_sessions.rs), and the completion of uploader/providers/mod.rs. The server, the
-- storage providers and failures of the database are the parameter Environment; the upload of the
-- chunks (Uploader.Pool) is there by its result and the progress that it leaves in the session. Every
-- call that leaves the process is logged.
pub mod After
pub mod Exits
use cloudreve_desktop.Prelude.Int.{ℤ, pos, wrap_i64}
use cloudreve_desktop.Prelude.{
  if◌then◌else◌, filter_by, ℕ, String, ◌⊎◌, inl, inr, Bool, true, false, not, Option, none, some,
  List, [], ◌∷◌, ◌++◌, str_eq,
}
use cloudreve_desktop.Uploader.Session.{
  new_session, is_expired, UploadSession, UploadCredential, PolicyType, ChunkProgress,
}

pub record UploadParams : Type 0 where
  pub local_path : String
  pub remote_uri : String
  pub file_size : ℕ
  pub mime_type : Option String
  pub last_modified : Option ℤ
  pub overwrite : Bool
  pub previous_version : String
  pub task_id : String
  pub drive_id : String

-- `UploadSessionRequest` of crates/cloudreve-api, without the fields that are always the same.
pub record UploadSessionRequest : Type 0 where
  pub uri : String
  pub size : ℤ
  pub last_modified : Option ℤ
  pub previous : Option String
  pub entity_type : Option String
  pub mime_type : Option String

pub data ProviderCall : Type 0 where
  complete_upload_oss complete_upload_s3like complete_upload_obs complete_onedrive complete_qiniu :
      ProviderCall
  callback_s3like : String → ProviderCall

pub data Call : Type 0 where
  create_upload_session : UploadSessionRequest → Call
  delete_upload_session : String → String → Call
  upload_all : UploadSession → PolicyType → Call
  provider : ProviderCall → UploadSession → Call

-- What the calls return, an error or not; `none` is `Ok(())`.
pub record Environment : Type 0 where
  pub now : ℤ
  pub load_error : Option String
  pub insert_error : Option String
  pub delete_error : String → Option String
  pub created : UploadSessionRequest → String ⊎ UploadCredential
  pub upload_error : UploadSession → PolicyType → Option String
  pub chunks_after : UploadSession → PolicyType → List ChunkProgress
  pub provider_error : ProviderCall → UploadSession → Option String

-- The rows of `upload_sessions`, and the log.
pub record World : Type 0 where
  pub sessions : List UploadSession
  pub log : List Call

unfoldable pub log_call : Call → World → World
log_call call w = record w { log = w.log ++ call ∷ [] }

unfoldable pub is_ok : Option String → Bool
is_ok none = true
is_ok (some err) = false

-- `get_upload_session_by_path`, the first row of the path.
unfoldable pub session_by_path : String → List UploadSession → Option UploadSession
session_by_path path [] = none
session_by_path path (s ∷ sessions) =
    let rest = session_by_path path sessions in if str_eq s.local_path path then some s else rest

-- `delete_upload_session`: the rows change only if the call succeeds.
unfoldable pub delete_row : Environment → String → World → World
delete_row env id w =
    if is_ok (env.delete_error id)
    then record w { sessions = filter_by (λ (s : UploadSession). not (str_eq s.id id)) w.sessions }
    else w

unfoldable pub check_existing :
    Environment → Option UploadSession → World → Option UploadSession × World
check_existing env none w = (none, w)
check_existing env (some s) w =
    if is_expired s env.now then (none, delete_row env s.id w) else (some s, w)

unfoldable pub get_or_create_session :
    Environment → UploadParams → World → Option UploadSession × World
get_or_create_session env params w =
    if is_ok env.load_error
    then check_existing env (session_by_path params.local_path w.sessions) w
    else (none, w)

unfoldable pub request_for : UploadParams → UploadSessionRequest
request_for params = record {
  uri = params.remote_uri;
  size = wrap_i64 (pos params.file_size);
  last_modified = params.last_modified;
  previous = if str_eq params.previous_version "" then none else some params.previous_version;
  entity_type = if params.overwrite then some "version" else none;
  mime_type = params.mime_type;
}

unfoldable pub session_for : Environment → UploadParams → UploadCredential → UploadSession
session_for env params credential =
    new_session params.task_id params.drive_id params.local_path params.remote_uri params.file_size
      credential env.now

unfoldable pub persist_session :
    Environment
    → UploadParams
    → String ⊎ UploadCredential
    → World
    → (String ⊎ UploadSession) × World
persist_session env params (inl err) w = (inl err, w)
persist_session env params (inr credential) w = elim env.insert_error [
  | none ↦ (
    inr (session_for env params credential),
    record w { sessions = w.sessions ++ session_for env params credential ∷ [] },
  )
  | some err ↦ (inl err, w)
]

unfoldable pub create_session :
    Environment → UploadParams → World → (String ⊎ UploadSession) × World
create_session env params w =
    persist_session env params (env.created (request_for params))
      (log_call (Call.create_upload_session (request_for params)) w)

-- The policy of `create_chunk_uploader` and of the providers' `complete_upload`.
unfoldable pub effective_policy : UploadSession → PolicyType
effective_policy s = if s.relay then PolicyType.local else s.policy_type

-- The calls that complete an upload; Local, Remote and Upyun (which only waits) make none.
unfoldable pub completion_calls : PolicyType → List ProviderCall
completion_calls PolicyType.local = []
completion_calls PolicyType.remote = []
completion_calls PolicyType.oss = ProviderCall.complete_upload_oss ∷ []
completion_calls PolicyType.cos =
    ProviderCall.complete_upload_s3like ∷ ProviderCall.callback_s3like "cos" ∷ []
completion_calls PolicyType.s3 =
    ProviderCall.complete_upload_s3like ∷ ProviderCall.callback_s3like "s3" ∷ []
completion_calls PolicyType.ks3 =
    ProviderCall.complete_upload_s3like ∷ ProviderCall.callback_s3like "ks3" ∷ []
completion_calls PolicyType.obs = ProviderCall.complete_upload_obs ∷ []
completion_calls PolicyType.onedrive = ProviderCall.complete_onedrive ∷ []
completion_calls PolicyType.qiniu = ProviderCall.complete_qiniu ∷ []
completion_calls PolicyType.upyun = []

-- The calls up to the first that fails, `?` of each.
unfoldable pub run_calls :
    Environment → UploadSession → List ProviderCall → World → Option String × World
run_calls env s [] w = (none, w)
run_calls env s (call ∷ calls) w =
    let logged = log_call (Call.provider call s) w in
    let rest = run_calls env s calls logged in
    elim (env.provider_error call s) [ none ↦ rest | some err ↦ (some err, logged) ]

unfoldable pub complete_upload : Environment → UploadSession → World → Option String × World
complete_upload env s w = run_calls env s (completion_calls (effective_policy s)) w

unfoldable pub cleanup_session : Environment → UploadSession → World → Option String × World
cleanup_session env s w = (env.delete_error s.id, delete_row env s.id w)

unfoldable pub delete_remote_session : Environment → UploadSession → World → World
delete_remote_session env s w = log_call (Call.delete_upload_session s.id s.remote_uri) w

-- After `complete_upload`.
unfoldable pub after_completion :
    Environment → UploadSession → Option String × World → Option String × World
after_completion env s (some err, w) = (some err, w)
after_completion env s (none, w) = cleanup_session env s w

-- After `upload_all`; a failed clean-up hides the error of the upload.
unfoldable pub after_upload :
    Environment → UploadSession → Option String → World → Option String × World
after_upload env s none w = after_completion env s (complete_upload env s w)
after_upload env s (some err) w =
    let cleaned = cleanup_session env s (delete_remote_session env s w) in
    elim cleaned.0 [ none ↦ (some err, cleaned.1) | some failure ↦ (some failure, cleaned.1) ]

unfoldable pub upload_session :
    Environment → (String ⊎ UploadSession) × World → Option String × World
upload_session env (inl err, w) = (some err, w)
upload_session env (inr s, w) =
    let policy = effective_policy s in
    after_upload env (record s { chunk_progress = env.chunks_after s policy })
      (env.upload_error s policy) (log_call (Call.upload_all s policy) w)

-- With the session found, which is removed first. The result of the remote deletion is not used.
unfoldable pub upload_from :
    Environment → UploadParams → Option UploadSession × World → Option String × World
upload_from env params (none, w) = upload_session env (create_session env params w)
upload_from env params (some old, w) =
    let cleaned = cleanup_session env old (delete_remote_session env old w) in
    elim cleaned.0 [
      | none ↦ upload_session env (create_session env params cleaned.1)
      | some err ↦ (some err, cleaned.1)
    ]

unfoldable pub upload : Environment → UploadParams → World → Option String × World
upload env params w = upload_from env params (get_or_create_session env params w)

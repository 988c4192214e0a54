-- ===== src/Tests/Orchestration.antt =====
-- One upload over an older session for the same path, to S3, whose callback fails.
use cloudreve_desktop.Uploader.Upload.Exits.{fresh_session, upload-row, row_stays}
use cloudreve_desktop.Prelude.{String, ◌≡◌, refl, inr, true, false, Option, none, some, [], ◌∷◌}
use cloudreve_desktop.Prelude.Int.{pos}
use cloudreve_desktop.Tests.Uploads.{credential, session}
use cloudreve_desktop.Uploader.Session.{from_api, new_session, UploadCredential, ApiPolicyType}
use cloudreve_desktop.Uploader.Upload.{
  is_ok, session_for, effective_policy, completion_calls, upload, Environment, World, UploadParams,
  ProviderCall,
}
use cloudreve_desktop.Uploader.Upload.After.{all_ok, has_session, Works}

abbrev s3_credential : UploadCredential
s3_credential = record credential {
  session_id = "new";
  storage_policy = some (record {
    policy_type = ApiPolicyType.s3;
    relay = none;
    chunk_concurrency = none;
    streaming_encryption = none;
  });
}

callback_fails : ProviderCall → Option String
callback_fails ProviderCall.complete_upload_oss = none
callback_fails ProviderCall.complete_upload_s3like = none
callback_fails ProviderCall.complete_upload_obs = none
callback_fails ProviderCall.complete_onedrive = none
callback_fails ProviderCall.complete_qiniu = none
callback_fails (ProviderCall.callback_s3like kind) = some "callback failed"

abbrev environment : Environment
environment = record {
  now = pos 10;
  load_error = none;
  insert_error = none;
  delete_error = λ id. none;
  created = λ request. inr s3_credential;
  upload_error = λ s policy. none;
  chunks_after = λ s policy. s.chunk_progress;
  provider_error = λ call s. callback_fails call;
}

environment-Works : Works environment
environment-Works = record { loads = refl; inserts = refl; deletes = λ id. refl }

abbrev params : UploadParams
params = record {
  local_path = "C:/a.txt";
  remote_uri = "cloudreve://my/a.txt";
  file_size = 10;
  mime_type = none;
  last_modified = none;
  overwrite = false;
  previous_version = "";
  task_id = "task";
  drive_id = "drive";
}

abbrev world : World
world = record { sessions = session ∷ []; log = [] }

upload-row_example :
    has_session "new" (upload environment params world).1.sessions
    ≡ row_stays environment environment-Works params s3_credential refl
upload-row_example = upload-row environment environment-Works params s3_credential refl world

row_stays_here : row_stays environment environment-Works params s3_credential refl ≡ true
unfolding from_api row_stays all_ok completion_calls effective_policy fresh_session session_for
    new_session callback_fails is_ok
row_stays_here = refl

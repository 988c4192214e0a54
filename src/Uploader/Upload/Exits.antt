-- ===== src/Uploader/Upload/Exits.antt =====
-- uploader/mod.rs: the calls that an upload makes, and the session that it leaves, on every exit after
-- the creation of the session.
use cloudreve_desktop.Prelude.{
  String, ◌≡◌, refl, ap, ◌∙◌, inr, Bool, not, ◌&&◌, Option, none, some, List, [], ◌∷◌, ◌++◌,
}
use cloudreve_desktop.Uploader.Session.{new_session, UploadSession, UploadCredential}
use cloudreve_desktop.Uploader.Upload.{
  completion_calls, log_call, persist_session, is_ok, delete_remote_session, cleanup_session,
  upload_session, upload_from, upload, session_for, get_or_create_session, effective_policy,
  delete_row, create_session, request_for, Environment, World, Call, UploadParams,
}
use cloudreve_desktop.Uploader.Upload.After.{
  has_session-snoc, after_upload-sessions, has_session, all_ok, left_by_upload, last_calls, Works,
}

module _ (env : Environment) (works : Works env) (params : UploadParams)
    (credential : UploadCredential)
    (created : env.created (request_for params) ≡ inr credential) where
  -- The session as it is created, and as the upload of its chunks leaves it.
  unfoldable pub fresh_session : UploadSession
  fresh_session = session_for env params credential

  -- The calls of an upload once a session that was there is gone.
  unfoldable pub upload_calls : List Call
  upload_calls =
      let policy = effective_policy fresh_session in
      Call.create_upload_session (request_for params)
      ∷ Call.upload_all fresh_session policy
      ∷ last_calls env (left_by_upload env fresh_session) (env.upload_error fresh_session policy)

  -- The row of the session stays exactly if the chunks were uploaded and the completion failed.
  unfoldable pub row_stays : Bool
  row_stays =
      let policy = effective_policy fresh_session in
      is_ok (env.upload_error fresh_session policy)
      && not (all_ok env (left_by_upload env fresh_session) (completion_calls policy))

  create_session-works :
      (w : World)
      → create_session env params w ≡ (
        inr fresh_session,
        record w {
          sessions = w.sessions ++ fresh_session ∷ [];
          log = w.log ++ Call.create_upload_session (request_for params) ∷ [];
        },
      )
  unfolding create_session persist_session fresh_session log_call session_for
  create_session-works w = rw (created, persist_session) (rw (works.inserts, persist_session) refl)

  upload_session-row :
      (w : World)
      → has_session fresh_session.id (upload_session env (create_session env params w)).1.sessions
        ≡ row_stays
  unfolding upload_session row_stays left_by_upload log_call effective_policy
  upload_session-row w = rw (create_session-works w) (
      after_upload-sessions env works (left_by_upload env fresh_session) _ _
        (has_session-snoc w.sessions fresh_session))

  -- The world once the session found for the path, if any, is gone.
  clear_session : Option UploadSession × World → World
  clear_session (none, w) = w
  clear_session (some old, w) = delete_row env old.id (delete_remote_session env old w)

  upload_from-works :
      (found : Option UploadSession × World)
      → upload_from env params found
        ≡ upload_session env (create_session env params (clear_session found))
  unfolding upload_from clear_session cleanup_session
  upload_from-works (none, w) = refl
  upload_from-works (some old, w) = rw (works.deletes old.id) refl

  -- While the database works and the server creates the session, the row of the session is gone when
  -- `upload` returns, except that it stays if all chunks were uploaded and a call that completes the
  -- upload failed.
  pub upload-row :
      (w : World) → has_session credential.session_id (upload env params w).1.sessions ≡ row_stays
  unfolding upload fresh_session session_for new_session
  upload-row w =
      let found = get_or_create_session env params w in
      ap (λ (r : Option String × World). has_session fresh_session.id r.1.sessions)
        (upload_from-works found)
      ∙ upload_session-row (clear_session found)

-- ===== src/Uploader/Upload/After.antt =====
-- uploader/mod.rs: the calls and the rows after `upload_all`.
use cloudreve_desktop.Prelude.{
  if◌then◌else◌, filter_by, any, all, String, ◌≡◌, refl, sym, Bool, false, not, Option, none, some,
  List, [], ◌∷◌, ◌++◌, arith, str_eq, Option-cases, ◌∙◌, inl, inr, true, ◌&&◌, append-nil,
  append_assoc, ap, eq_iff,
}
use cloudreve_desktop.Uploader.Session.{UploadSession}
use cloudreve_desktop.Uploader.Upload.{
  delete_remote_session, complete_upload, cleanup_session, after_upload, after_completion, log_call,
  run_calls, is_ok, effective_policy, delete_row, completion_calls, Environment, World, Call,
  ProviderCall,
}

-- The database does not fail.
pub record Works (env : Environment) : Type 0 where
  pub loads : env.load_error ≡ none
  pub inserts : env.insert_error ≡ none
  pub deletes : (id : String) → env.delete_error id ≡ none

-- The completion's calls, up to the first that fails, and whether none does.
unfoldable pub made : Environment → UploadSession → List ProviderCall → List Call
made env s [] = []
made env s (call ∷ calls) =
    let rest = made env s calls in
    Call.provider call s ∷ (if is_ok (env.provider_error call s) then rest else [])

unfoldable pub all_ok : Environment → UploadSession → List ProviderCall → Bool
all_ok env s calls = all (λ call. is_ok (env.provider_error call s)) calls

-- What follows `upload_all`.
unfoldable pub last_calls : Environment → UploadSession → Option String → List Call
last_calls env s none = made env s (completion_calls (effective_policy s))
last_calls env s (some err) = Call.delete_upload_session s.id s.remote_uri ∷ []

-- What precedes the creation of the session.
unfoldable pub first_calls : Option UploadSession → List Call
first_calls none = []
first_calls (some old) = Call.delete_upload_session old.id old.remote_uri ∷ []

-- The session once the chunks are uploaded or given up.
unfoldable pub left_by_upload : Environment → UploadSession → UploadSession
left_by_upload env s = record s { chunk_progress = env.chunks_after s (effective_policy s) }

unfoldable pub has_session : String → List UploadSession → Bool
has_session id sessions = any (λ (s : UploadSession). str_eq s.id id) sessions

and_true : (b : Bool) → (b && true) ≡ b
and_true true = refl
and_true false = refl

pub has_session-snoc :
    (sessions : List UploadSession) (s : UploadSession)
    → has_session s.id (sessions ++ s ∷ []) ≡ true
unfolding has_session
has_session-snoc [] s = ground (arith, (eq_iff s.id s.id).1 refl)
has_session-snoc (old ∷ sessions) s = ground (arith, has_session-snoc sessions s)

module _ (env : Environment) (works : Works env) where
  run_calls-log :
      (s : UploadSession) (calls : List ProviderCall) (w : World)
      → (run_calls env s calls w).1.log ≡ w.log ++ made env s calls
  unfolding run_calls made log_call is_ok
  run_calls-log s [] w = sym (append-nil w.log)
  run_calls-log s (call ∷ calls) w = elim (Option-cases (env.provider_error call s)) [
    | inl e ↦
        rw (e, run_calls)
          (run_calls-log s calls (log_call (Call.provider call s) w)
            ∙ append_assoc w.log (Call.provider call s ∷ []) (made env s calls))
    | inr (err, e) ↦ rw (e, run_calls) refl
  ]

  run_calls-end :
      (s : UploadSession) (calls : List ProviderCall) (w : World)
      → ((run_calls env s calls w).1.sessions ≡ w.sessions)
        × (is_ok (run_calls env s calls w).0 ≡ all_ok env s calls)
  unfolding run_calls all_ok log_call is_ok
  run_calls-end s [] w = (refl, refl)
  run_calls-end s (call ∷ calls) w = elim (Option-cases (env.provider_error call s)) [
    | inl e ↦ rw (e, run_calls) (run_calls-end s calls (log_call (Call.provider call s) w))
    | inr (err, e) ↦ rw (e, run_calls) (refl, refl)
  ]

  pub delete_row-works :
      (id : String) (w : World)
      → delete_row env id w
        ≡ record w { sessions = filter_by (λ (s : UploadSession). not (str_eq s.id id)) w.sessions }
  unfolding delete_row is_ok
  delete_row-works id w = rw (works.deletes id) refl

  filter-has_session :
      (id : String) (sessions : List UploadSession)
      → has_session id (filter_by (λ (s : UploadSession). not (str_eq s.id id)) sessions) ≡ false
  unfolding has_session
  filter-has_session id [] = refl
  filter-has_session id (s ∷ sessions) = ground (arith, filter-has_session id sessions)

  after_completion-end :
      (s : UploadSession) (r : Option String × World)
      → ((after_completion env s r).1.log ≡ r.1.log)
        × (has_session s.id (after_completion env s r).1.sessions
            ≡ (not (is_ok r.0) && has_session s.id r.1.sessions))
  unfolding after_completion cleanup_session is_ok
  after_completion-end s (some err, w) = (refl, refl)
  after_completion-end s (none, w) =
      rw (delete_row-works s.id w) (refl, filter-has_session s.id w.sessions)

  pub after_upload-log :
      (s : UploadSession) (result : Option String) (w : World)
      → (after_upload env s result w).1.log ≡ w.log ++ last_calls env s result
  unfolding after_upload last_calls complete_upload cleanup_session delete_remote_session log_call
  after_upload-log s none w =
      (after_completion-end s (complete_upload env s w)).0 ∙ run_calls-log s _ w
  after_upload-log s (some err) w = rw (works.deletes s.id, delete_row-works s.id) refl

  pub after_upload-sessions :
      (s : UploadSession) (result : Option String) (w : World)
      → has_session s.id w.sessions ≡ true
      → has_session s.id (after_upload env s result w).1.sessions
        ≡ (is_ok result && not (all_ok env s (completion_calls (effective_policy s))))
  unfolding after_upload complete_upload cleanup_session delete_remote_session log_call is_ok
  after_upload-sessions s none w h =
      let (rows, ok) = run_calls-end s (completion_calls (effective_policy s)) w in
      (after_completion-end s (complete_upload env s w)).1
      ∙ ap
          (λ (rs : List UploadSession).
            not (is_ok (run_calls env s (completion_calls (effective_policy s)) w).0)
            && has_session s.id rs)
          rows
      ∙ rw (ok, h) (and_true _)
  after_upload-sessions s (some err) w h =
      rw (works.deletes s.id, delete_row-works s.id) (filter-has_session s.id w.sessions)

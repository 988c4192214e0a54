-- ===== src/Drive/SyncRun/Errors.antt =====
-- No failure of a synchronisation is lost: errors are collected level by level, and the result is an
-- error exactly if a call failed whose failure the code does not tolerate.
use cloudreve_desktop.Prelude.{
  all, ◌≡◌, inl, inr, Bool, true, false, Option, none, some, arith, if-rule, String, refl, ◌&&◌,
  List, [], ◌∷◌,
}
use cloudreve_desktop.Drive.Files.{FileMetadata, FileResponse, LocalFileInfo}
use cloudreve_desktop.Drive.SyncRun.Calls.{
  Fault, Log, Call, Environment, after, on_outcome-rule, is_parent_not_exist_error, is_not_found,
}
use cloudreve_desktop.Drive.SyncRun.Gather.{
  Reading, ◌>>=◌, read, fetch_local_file_infos, fetch_inventory_entries, target_remote_paths,
  list_presented, fetch_remote_file_infos, remote_files_of, gather, list_located,
  list_remote_children, read_directory, collect_child_targets,
}

-- A call that leaves no error: it succeeded, or the code tolerates its failure. Marking an item that is
-- no longer available always comes with an error.
abbrev pub fine : Call × Option Fault → Bool
fine (Call.update_sync_error_state path, outcome) = false
fine (Call.cancel_by_path path, outcome) = true
fine (Call.locate_directory path, outcome) = true
fine (call, none) = true
fine (Call.list_presented_children uri, some fault) = is_parent_not_exist_error fault
fine (Call.read_dir path, some fault) = is_not_found fault
fine (call, some fault) = false

abbrev pub clean : Log → Bool
clean = all fine

-- Calls whose failure is an error.
abbrev pub strict : Call → Bool
strict (Call.update_sync_error_state path) = false
strict (Call.cancel_by_path path) = false
strict (Call.locate_directory path) = false
strict (Call.list_presented_children uri) = false
strict (Call.read_dir path) = false
strict call = true

abbrev pub succeeded : Option Fault → Bool
succeeded none = true
succeeded (some fault) = false

pub fine-strict :
    (call : Call) (outcome : Option Fault)
    → strict call ≡ true
    → fine (call, outcome) ≡ succeeded outcome
fine-strict call outcome h = ground arith

-- A reading from a log is clean as long as it gives no error.
abbrev pub Told : {A : Type 0} → Log → Reading A → Type 0
Told log (inl fault, log') = clean log' ≡ false
Told log (inr a, log') = clean log' ≡ clean log

Told-bind :
    {A B : Type 0} (log : Log) (m : Reading A) (f : A → Log → Reading B)
    → Told log m
    → ((a : A) (log : Log) → Told log (f a log))
    → Told log (m >>= f)
Told-bind log (inl fault, log') f h k = h
Told-bind log (inr a, log') f h k = Told_of log (f a log') log' h (k a log')
  where
    Told_of :
        {B : Type 0} (log : Log) (m : Reading B) (log' : Log)
        → clean log' ≡ clean log
        → Told log' m
        → Told log m
    Told_of log (inl fault, log'') log' e h = h
    Told_of log (inr b, log'') log' e h = cc

pub clean-after :
    (env : Environment) (call : Call) (log : Log)
    → clean (after env call log) ≡ (fine (call, env.attempt log call) && clean log)
unfolding after
clean-after env call log = refl

module _ (env : Environment) where
  read-Told :
      {A : Type 0} (call : Call) (value : A) (log : Log)
      → strict call ≡ true
      → Told log (read env call value log)
  unfolding read after
  read-Told call value log h =
      on_outcome-rule (Told log) (env.attempt log call)
        (λ ok. cc (fine-strict call (env.attempt log call) h))
        (λ fault failed. cc (fine-strict call (env.attempt log call) h))

  fetch_local_file_infos-Told :
      (paths : List String) (infos : List (String × LocalFileInfo)) (log : Log)
      → Told log (fetch_local_file_infos env paths infos log)
  unfolding fetch_local_file_infos
  fetch_local_file_infos-Told [] infos log = refl
  fetch_local_file_infos-Told (path ∷ paths) infos log =
      Told-bind log (read env (Call.read_local path) (env.local_info log path) log) _
        (read-Told _ _ log refl) (λ info log'. fetch_local_file_infos-Told paths _ log')

  fetch_inventory_entries-Told :
      (paths : List String) (rows : List (String × FileMetadata)) (log : Log)
      → Told log (fetch_inventory_entries env paths rows log)
  unfolding fetch_inventory_entries
  fetch_inventory_entries-Told [] rows log = refl
  fetch_inventory_entries-Told (path ∷ paths) rows log =
      Told-bind log (read env (Call.read_inventory path) (env.inventory_row log path) log) _
        (read-Told _ _ log refl) (λ row log'. fetch_inventory_entries-Told paths _ log')

  target_remote_paths-Told :
      (paths : List String) (targets : List (String × String)) (log : Log)
      → Told log (target_remote_paths env paths targets log)
  unfolding target_remote_paths
  target_remote_paths-Told [] targets log = refl
  target_remote_paths-Told (path ∷ paths) targets log =
      Told-bind log (read env (Call.locate path) (env.remote_uri path) log) _
        (read-Told _ _ log refl) (λ uri log'. target_remote_paths-Told paths _ log')

  list_presented-Told : (uri : String) (log : Log) → Told log (list_presented env uri log)
  unfolding list_presented after
  list_presented-Told uri log =
      on_outcome-rule (Told log) (env.attempt log (Call.list_presented_children uri))
        (λ ok. rw ok refl)
        (λ fault failed.
          if-rule (Told log) (is_parent_not_exist_error fault) (λ gone. rw failed (ground arith))
            (λ broken. rw failed (ground arith)))

  fetch_remote_file_infos-Told :
      (parent : String) (paths : List String) (log : Log)
      → Told log (fetch_remote_file_infos env parent paths log)
  unfolding fetch_remote_file_infos
  fetch_remote_file_infos-Told parent [] log = refl
  fetch_remote_file_infos-Told parent (path ∷ paths) log =
      Told-bind log _ _ (target_remote_paths-Told (path ∷ paths) [] log) (λ targets log.
        Told-bind log _ _ (read-Told _ _ log refl)
          (λ uri log. Told-bind log _ _ (list_presented-Told uri log) (λ files log. refl)))

  pub gather-Told :
      (parent : String) (paths : List String) (prefetched : Option (List (String × FileResponse)))
      (log : Log)
      → Told log (gather env parent paths prefetched log)
  unfolding gather
  gather-Told parent paths prefetched log = Told-bind log _ _ (remote prefetched) (λ remote log.
      Told-bind log _ _ (fetch_local_file_infos-Told paths [] log) (λ local log.
        Told-bind log _ _ (fetch_inventory_entries-Told paths [] log) (λ rows log. refl)))
    where
      remote :
          (prefetched : Option (List (String × FileResponse)))
          → Told log (remote_files_of env parent paths prefetched log)
      remote none = unfold remote_files_of in fetch_remote_file_infos-Told parent paths log
      remote (some files) = unfold remote_files_of in refl

  read_directory-Told :
      (directory : String) (log : Log) → Told log (read_directory env directory log)
  unfolding read_directory after
  read_directory-Told directory log =
      on_outcome-rule (Told log) (env.attempt log (Call.read_dir directory)) (λ ok. rw ok refl)
        (λ fault failed.
          if-rule (Told log) (is_not_found fault) (λ gone. rw failed (ground arith))
            (λ broken. rw failed (ground arith)))

  list_located-Told :
      (directory : String) (valid : Bool) (log : Log)
      → Told log (list_located env directory valid log)
  unfolding list_located
  list_located-Told directory false log = refl
  list_located-Told directory true log =
      Told-bind log _ _ (list_presented-Told _ log) (λ files log'. refl)

  list_remote_children-Told :
      (directory : String) (log : Log) → Told log (list_remote_children env directory log)
  unfolding list_remote_children after
  list_remote_children-Told directory log =
      on_outcome-rule (Told log) (env.attempt log (Call.locate_directory directory))
        (λ ok. list_located-Told directory env.remote_base_is_uri _) (λ fault failed. refl)

  pub collect_child_targets-Told :
      (directory : String) (log : Log) → Told log (collect_child_targets env directory log)
  unfolding collect_child_targets
  collect_child_targets-Told directory log =
      Told-bind log _ _ (read_directory-Told directory log) (λ children log'.
        Told-bind log' _ _ (list_remote_children-Told directory log') (λ files log''. refl))

-- ===== src/Drive/SyncRun/Reads.antt =====
-- Reading loses nothing, and what a group plans from was answered in the same run.
use cloudreve_desktop.Prelude.{
  if-rule, All, String, refl, Bool, true, false, Option, none, some, List, [], ◌∷◌,
}
use cloudreve_desktop.Drive.Files.{FileResponse, LocalFileInfo}
use cloudreve_desktop.Drive.SyncPlan.Build.{Entries}
use cloudreve_desktop.Drive.SyncRun.Calls.{
  Log, Call, Environment, after, on_outcome-rule, is_parent_not_exist_error, is_not_found,
}
use cloudreve_desktop.Drive.SyncRun.Gather.{
  read, target_remote_paths, list_presented, fetch_remote_file_infos, remote_files_of, gather,
  list_located, list_remote_children, read_directory, collect_child_targets,
}
use cloudreve_desktop.Drive.SyncRun.Seen.{
  Earlier, Earlier-refl, Earlier-trans, Careful, Gives, Gives-bind, Gives-later, Any, All-map,
  Allowed,
}
use cloudreve_desktop.Drive.SyncRun.Known.{
  read-Gives, KnownLocal, KnownRow, Rows-empty, fetch_local_file_infos-Gives,
  fetch_inventory_entries-Gives,
}

All-both {ℓ κ μ} :
    {A : Type ℓ} (P : A → Type κ) (R : A → Type μ) (xs : List A)
    → All P xs
    → All R xs
    → All (λ x. P x × R x) xs
All-both P R [] p r = tt
All-both P R (x ∷ xs) (p, ps) (r, rs) = ((p, r), All-both P R xs ps rs)

module _ (env : Environment) where
  -- A call that loses nothing, whatever becomes of its outcome.
  pub called :
      (call : Call) (log : Log)
      → Allowed env log call
      → Careful env log
      → Earlier log (after env call log) × Careful env (after env call log)
  unfolding after
  called call log allowed careful = (((call, env.attempt log call) ∷ [], refl), (allowed, careful))

  target_remote_paths-Gives :
      (paths : List String) (targets : List (String × String)) (log : Log)
      → Careful env log
      → Gives env log Any (target_remote_paths env paths targets log)
  unfolding target_remote_paths
  target_remote_paths-Gives [] targets log c = (Earlier-refl log, c, tt)
  target_remote_paths-Gives (path ∷ paths) targets log c =
      Gives-bind env log Any Any (read env (Call.locate path) (env.remote_uri path) log) _
        (read-Gives env Any (Call.locate path) (env.remote_uri path) log tt c tt)
        (λ uri log e c h. target_remote_paths-Gives paths _ log c)

  list_presented-Gives :
      (uri : String) (log : Log) → Careful env log → Gives env log Any (list_presented env uri log)
  unfolding list_presented
  list_presented-Gives uri log c =
      let (e, c') = called (Call.list_presented_children uri) log tt c in
      on_outcome-rule (Gives env log Any) (env.attempt log (Call.list_presented_children uri))
        (λ ok. (e, c', tt))
        (λ fault failed.
          if-rule (Gives env log Any) (is_parent_not_exist_error fault) (λ gone. (e, c', tt))
            (λ broken. (e, c')))

  fetch_remote_file_infos-Gives :
      (parent : String) (paths : List String) (log : Log)
      → Careful env log
      → Gives env log Any (fetch_remote_file_infos env parent paths log)
  unfolding fetch_remote_file_infos
  fetch_remote_file_infos-Gives parent [] log c = (Earlier-refl log, c, tt)
  fetch_remote_file_infos-Gives parent (path ∷ paths) log c =
      Gives-bind env log Any Any _ _ (target_remote_paths-Gives (path ∷ paths) [] log c)
        (λ targets log e c h.
          Gives-bind env log Any Any _ _
            (read-Gives env Any (Call.locate parent) (env.remote_uri parent) log tt c tt)
            (λ uri log e c h.
              Gives-bind env log Any Any _ _ (list_presented-Gives uri log c)
                (λ files log e c h. (Earlier-refl log, c, tt))))

  remote_files_of-Gives :
      (parent : String) (paths : List String) (prefetched : Option (List (String × FileResponse)))
      (log : Log)
      → Careful env log
      → Gives env log Any (remote_files_of env parent paths prefetched log)
  unfolding remote_files_of
  remote_files_of-Gives parent paths none log c = fetch_remote_file_infos-Gives parent paths log c
  remote_files_of-Gives parent paths (some files) log c = (Earlier-refl log, c, tt)

  KnownLocal-later :
      (log log' : Log) (infos : List (String × LocalFileInfo)) (path : String)
      → Earlier log log'
      → KnownLocal env path infos log
      → KnownLocal env path infos log'
  KnownLocal-later log log' infos path e (when, w, h) = (when, Earlier-trans {b = log} w e, h)

  -- Both states of each path were answered.
  abbrev pub Known : Log → Entries → String → Type 0
  Known log entries path =
      KnownLocal env path entries.local_files log × KnownRow env path entries.inventory_entries log

  pub gather-Gives :
      (parent : String) (paths : List String) (prefetched : Option (List (String × FileResponse)))
      (log : Log)
      → Careful env log
      → Gives env log
          (λ entries log. All (Known log entries) paths)
          (gather env parent paths prefetched log)
  unfolding gather
  gather-Gives parent paths prefetched log c =
      Gives-bind env log Any _ _ _ (remote_files_of-Gives parent paths prefetched log c)
        (λ remote log e c h.
          Gives-bind env log _ _ _ _ (fetch_local_file_infos-Gives env [] paths [] log c tt)
            (λ local log e c h.
              Gives-bind env log _ _ _ _
                (fetch_inventory_entries-Gives env [] paths [] log c (Rows-empty env log) tt)
                (λ rows log' e c' h'. (
                  Earlier-refl log',
                  c',
                  All-both _ _ paths
                      (All-map _ _ paths (λ p. KnownLocal-later log log' local p e) h.1) h'.1,
                ))))

  read_directory-Gives :
      (directory : String) (log : Log)
      → Careful env log
      → Gives env log Any (read_directory env directory log)
  unfolding read_directory
  read_directory-Gives directory log c =
      let (e, c') = called (Call.read_dir directory) log tt c in
      on_outcome-rule (Gives env log Any) (env.attempt log (Call.read_dir directory))
        (λ ok. (e, c', tt))
        (λ fault failed.
          if-rule (Gives env log Any) (is_not_found fault) (λ gone. (e, c', tt))
            (λ broken. (e, c')))

  list_located-Gives :
      (directory : String) (valid : Bool) (log : Log)
      → Careful env log
      → Gives env log Any (list_located env directory valid log)
  unfolding list_located
  list_located-Gives directory false log c = (Earlier-refl log, c, tt)
  list_located-Gives directory true log c =
      Gives-bind env log Any Any _ _ (list_presented-Gives (env.remote_uri directory) log c)
        (λ files log e c h. (Earlier-refl log, c, tt))

  list_remote_children-Gives :
      (directory : String) (log : Log)
      → Careful env log
      → Gives env log Any (list_remote_children env directory log)
  unfolding list_remote_children
  list_remote_children-Gives directory log c =
      let (e, c') = called (Call.locate_directory directory) log tt c in
      on_outcome-rule (Gives env log Any) (env.attempt log (Call.locate_directory directory))
        (λ ok.
          Gives-later env log _ Any _ e (list_located-Gives directory env.remote_base_is_uri _ c'))
        (λ fault failed. (e, c', tt))

  pub collect_child_targets-Gives :
      (directory : String) (log : Log)
      → Careful env log
      → Gives env log Any (collect_child_targets env directory log)
  unfolding collect_child_targets
  collect_child_targets-Gives directory log c =
      Gives-bind env log Any Any _ _ (read_directory-Gives directory log c) (λ children log e c h.
        Gives-bind env log Any Any _ _ (list_remote_children-Gives directory log c)
          (λ files log e c h. (Earlier-refl log, c, tt)))

-- ===== src/Drive/SyncRun/Gather.antt =====
-- What drive/sync.rs reads before it plans: the local, remote and inventory state of a list of paths,
-- and the children of a directory. A path is a string, so that it always converts to UTF-8. An error
-- ends the reading; what was read is lost.
use cloudreve_desktop.Prelude.{
  if◌then◌else◌, any, String, Bool, true, false, ◌⊎◌, inl, inr, Option, none, some, List, [], ◌∷◌,
  ◌++◌, str_eq, map,
}
use cloudreve_desktop.Dict.{lookup, insert, remove, string_eq}
use cloudreve_desktop.Drive.Files.{FileMetadata, FileResponse, LocalFileInfo}
use cloudreve_desktop.Drive.SyncPlan.Build.{Entries}
use cloudreve_desktop.Drive.SyncRun.Calls.{
  Fault, Log, Call, Environment, after, on_outcome, is_parent_not_exist_error, is_not_found,
}

-- The outcome of a reading, with the log.
abbrev pub Reading : Type 0 → Type 0
Reading A = (Fault ⊎ A) × Log

infixl 5 ◌>>=◌
abbrev pub ◌>>=◌ : {A B : Type 0} → Reading A → (A → Log → Reading B) → Reading B
(inl fault, log) >>= f = (inl fault, log)
(inr a, log) >>= f = f a log

-- A call, and the value that it returns if it succeeds.
unfoldable pub read : {A : Type 0} → Environment → Call → A → Log → Reading A
unfolding after
read env call value log =
    on_outcome (env.attempt log call) ((inr value, after env call log))
      (λ fault. (inl fault, after env call log))

unfoldable pub fetch_local_file_infos :
    Environment
    → List String
    → List (String × LocalFileInfo)
    → Log
    → Reading (List (String × LocalFileInfo))
unfolding read
fetch_local_file_infos env [] infos log = (inr infos, log)
fetch_local_file_infos env (path ∷ paths) infos log =
    read env (Call.read_local path) (env.local_info log path) log >>= λ info.
    fetch_local_file_infos env paths (insert path info infos)

unfoldable pub insert_row :
    String → Option FileMetadata → List (String × FileMetadata) → List (String × FileMetadata)
insert_row path none rows = rows
insert_row path (some row) rows = insert path row rows

unfoldable pub fetch_inventory_entries :
    Environment
    → List String
    → List (String × FileMetadata)
    → Log
    → Reading (List (String × FileMetadata))
unfolding read insert_row
fetch_inventory_entries env [] rows log = (inr rows, log)
fetch_inventory_entries env (path ∷ paths) rows log =
    read env (Call.read_inventory path) (env.inventory_row log path) log >>= λ row.
    fetch_inventory_entries env paths (insert_row path row rows)

-- `target_remote_paths`: the local path of each requested URI.
unfoldable pub target_remote_paths :
    Environment → List String → List (String × String) → Log → Reading (List (String × String))
unfolding read
target_remote_paths env [] targets log = (inr targets, log)
target_remote_paths env (path ∷ paths) targets log =
    read env (Call.locate path) (env.remote_uri path) log >>= λ uri.
    target_remote_paths env paths (insert uri path targets)

unfoldable pub insert_target :
    Option String → FileResponse → List (String × FileResponse) → List (String × FileResponse)
insert_target none file found = found
insert_target (some path) file found = insert path file found

abbrev no_targets : List (String × String) → Bool
no_targets [] = true
no_targets (target ∷ targets) = false

-- The loop over the listed files; it ends once every target was found.
unfoldable pub match_targets :
    (targets remaining : List (String × String))
    → List (String × FileResponse)
    → List (String × FileResponse)
    → List (String × FileResponse)
unfolding insert_target
match_targets targets remaining [] found = found
match_targets targets remaining ((uri, file) ∷ files) found =
    let left = remove uri remaining in
    let found' = insert_target (lookup uri targets) file found in
    let rest = match_targets targets left files found' in if no_targets left then found' else rest

-- A missing parent directory has no entries.
unfoldable pub list_presented : Environment → String → Log → Reading (List (String × FileResponse))
unfolding after is_parent_not_exist_error
list_presented env uri log =
    let log' = after env (Call.list_presented_children uri) log in
    on_outcome (env.attempt log (Call.list_presented_children uri))
      ((inr (env.presented log uri), log'))
      (λ fault. if is_parent_not_exist_error fault then (inr [], log') else (inl fault, log'))

unfoldable pub fetch_remote_file_infos :
    Environment → String → List String → Log → Reading (List (String × FileResponse))
unfolding target_remote_paths match_targets list_presented read
fetch_remote_file_infos env parent [] log = (inr [], log)
fetch_remote_file_infos env parent (path ∷ paths) log =
    target_remote_paths env (path ∷ paths) [] log >>= λ targets log.
    read env (Call.locate parent) (env.remote_uri parent) log >>= λ uri log.
    list_presented env uri log >>= λ files log. (inr (match_targets targets targets files []), log)

-- The server's entries are read unless a walk has listed them already.
unfoldable pub remote_files_of :
    Environment
    → String
    → List String
    → Option (List (String × FileResponse))
    → Log
    → Reading (List (String × FileResponse))
unfolding fetch_remote_file_infos
remote_files_of env parent paths (some files) log = (inr files, log)
remote_files_of env parent paths none log = fetch_remote_file_infos env parent paths log

unfoldable pub gather :
    Environment
    → String
    → List String
    → Option (List (String × FileResponse))
    → Log
    → Reading Entries
unfolding remote_files_of fetch_local_file_infos fetch_inventory_entries
gather env parent paths prefetched log =
    remote_files_of env parent paths prefetched log >>= λ remote log.
    fetch_local_file_infos env paths [] log >>= λ local log.
    fetch_inventory_entries env paths [] log >>= λ rows log.
    (inr (record { remote_files = remote; local_files = local; inventory_entries = rows }), log)

unfoldable pub is_parent : Environment → String → String → Bool
is_parent env directory path = elim (env.parent path) [
  | none ↦ false
  | some parent ↦ str_eq parent directory
]

-- The listed files that lie in the directory, by their local paths.
unfoldable pub children_below :
    Environment → String → List (String × FileResponse) → List (String × FileResponse)
unfolding is_parent
children_below env directory [] = []
children_below env directory ((uri, file) ∷ files) =
    let rest = children_below env directory files in
    elim (env.local_path uri) [
      | none ↦ rest
      | some path ↦ if is_parent env directory path then (path, file) ∷ rest else rest
    ]

unfoldable pub insert_all :
    List (String × FileResponse) → List (String × FileResponse) → List (String × FileResponse)
insert_all [] files = files
insert_all ((path, file) ∷ children) files = insert_all children (insert path file files)

-- The listed children of a directory that has a URI.
unfoldable pub list_located :
    Environment → String → Bool → Log → Reading (List (String × FileResponse))
unfolding list_presented children_below
list_located env directory false log = (inr [], log)
list_located env directory true log =
    list_presented env (env.remote_uri directory) log >>= λ files log.
    (inr (children_below env directory files), log)

-- A directory that has no URI has no remote children; that is not reported.
unfoldable pub list_remote_children :
    Environment → String → Log → Reading (List (String × FileResponse))
unfolding after list_located
list_remote_children env directory log =
    let log' = after env (Call.locate_directory directory) log in
    on_outcome (env.attempt log (Call.locate_directory directory))
      (list_located env directory env.remote_base_is_uri log') (λ fault. (inr [], log'))

-- A local directory that is gone has no entries.
unfoldable pub read_directory : Environment → String → Log → Reading (List String)
unfolding after is_not_found
read_directory env directory log =
    let log' = after env (Call.read_dir directory) log in
    on_outcome (env.attempt log (Call.read_dir directory)) ((inr (env.entries log directory), log'))
      (λ fault. if is_not_found fault then (inr [], log') else (inl fault, log'))

-- The hash set of the children that are not ignored.
unfoldable pub dedup : (String → Bool) → List String → List String → List String
dedup is_ignored [] seen = seen
dedup is_ignored (child ∷ children) seen = dedup is_ignored children (
    if is_ignored child then seen else if any (str_eq child) seen then seen else seen ++ child ∷ [])

abbrev pub key : String × FileResponse → String
key (path, file) = path

-- `CollectChildResult`: the children's paths, and the remote files by path.
unfoldable pub collect_child_targets :
    Environment → String → Log → Reading (List String × List (String × FileResponse))
unfolding read_directory list_remote_children dedup insert_all
collect_child_targets env directory log = read_directory env directory log >>= λ children log.
    list_remote_children env directory log >>= λ files log. (
      inr (
        env.order log (dedup (env.host log).is_ignored (children ++ map key files) []),
        insert_all files [],
      ),
      log,
    )

-- ===== src/Drive/SyncRun/Group.antt =====
-- `sync_paths`, `sync_group` and `process_walk_requests` of drive/sync.rs. A group walks directories
-- whose children are groups: that recursion has fuel, and `none` is the fuel's end. A result `none`
-- inside it is `Ok(())`.
use cloudreve_desktop.Prelude.{
  filter_by, ◌>>=◌, ℕ, zero, suc, String, Bool, true, false, not, inl, inr, Option, none, some,
  List, [], ◌∷◌, str_eq,
}
use cloudreve_desktop.Dict.{string_eq}
use cloudreve_desktop.Dict.Groups.{group_by}
use cloudreve_desktop.Drive.Files.{FileResponse}
use cloudreve_desktop.Drive.SyncPlan.Model.{SyncMode, WalkReason, WalkTiming, WalkRequest, SyncPlan}
use cloudreve_desktop.Drive.SyncPlan.Build.{Entries, build_sync_plan}
use cloudreve_desktop.Drive.SyncRun.Calls.{
  Fault, Log, Environment, Progress, start, push_error, into_result,
}
use cloudreve_desktop.Drive.SyncRun.Actions.{process_sync_plan_actions_list}
use cloudreve_desktop.Drive.SyncRun.Gather.{Reading, gather, collect_child_targets}

-- The result of a group, unless the fuel ends, and a group with its paths.
abbrev pub Result : Type 0
Result = Option (Option Fault × Log)

abbrev pub Run : Type 0
Run = String → List String → SyncMode → Option (List (String × FileResponse)) → Log → Result

unfoldable pub prefetch : List (String × FileResponse) → Option (List (String × FileResponse))
prefetch [] = none
prefetch (file ∷ files) = some (file ∷ files)

-- What a walk does with the children that were collected.
unfoldable pub walk_children :
    Run
    → WalkRequest
    → Progress
    → Reading (List String × List (String × FileResponse))
    → Option Progress
unfolding push_error prefetch
walk_children run walk p (inl fault, log) =
    some (push_error walk.path (some fault) (record p { log = log }))
walk_children run walk p (inr ([], files), log) = some (record p { log = log })
walk_children run walk p (inr (child ∷ children, files), log) =
    run walk.path (child ∷ children) walk.mode (prefetch files) log >>= λ ended.
    some (push_error walk.path ended.0 (record p { log = ended.1 }))

unfoldable pub process_walk_requests :
    Environment → Run → List WalkRequest → Progress → Option Progress
unfolding walk_children collect_child_targets
process_walk_requests env run [] p = some p
process_walk_requests env run (walk ∷ walks) p =
    walk_children run walk p (collect_child_targets env walk.path p.log) >>= λ p'.
    process_walk_requests env run walks p'

abbrev pub is_immediate : WalkRequest → Bool
is_immediate walk = elim walk.timing [ WalkTiming.immediate ↦ true | WalkTiming.deferred ↦ false ]

unfoldable pub finish : String → Option Progress → Result
unfolding into_result
finish context ended = ended >>= λ p. some (into_result context p.errors, p.log)

-- Immediate walks, then the actions, then the deferred walks.
unfoldable pub carry_out : Environment → Run → String → SyncPlan → Log → Option Progress
unfolding process_walk_requests start process_sync_plan_actions_list
carry_out env run parent plan log =
    process_walk_requests env run (filter_by is_immediate plan.walk_requests) (start log) >>= λ p.
    process_walk_requests env run (filter_by (λ walk. not (is_immediate walk)) plan.walk_requests)
      (process_sync_plan_actions_list env parent plan.actions p)

unfoldable pub plan_group :
    Environment → Run → String → List String → SyncMode → Reading Entries → Result
unfolding finish carry_out
plan_group env run parent paths mode (inl fault, log) = some (some fault, log)
plan_group env run parent paths mode (inr entries, log) =
    finish "sync_group"
      (carry_out env run parent (build_sync_plan (env.host log) mode paths entries) log)

unfoldable pub is_sync_root : Environment → List String → Bool
is_sync_root env [] = false
is_sync_root env (path ∷ []) = str_eq path env.sync_path
is_sync_root env (path ∷ other ∷ paths) = false

abbrev pub root_walk : Environment → SyncMode → WalkRequest
root_walk env mode = record {
  path = env.sync_path;
  mode = mode;
  reason = WalkReason.mode_propagation;
  timing = WalkTiming.immediate;
}

-- A group, with what walks its directories; for the sync root itself that is all.
unfoldable pub run_group :
    Environment
    → Run
    → Bool
    → String
    → List String
    → SyncMode
    → Option (List (String × FileResponse))
    → Log
    → Result
unfolding process_walk_requests start gather plan_group finish
run_group env run true parent paths mode prefetched log =
    finish "sync_group" (process_walk_requests env run (root_walk env mode ∷ []) (start log))
run_group env run false parent paths mode prefetched log =
    plan_group env run parent paths mode (gather env parent paths prefetched log)

unfoldable pub sync_group : Environment → ℕ → Run
unfolding is_sync_root run_group
sync_group env zero parent paths mode prefetched log = none
sync_group env (suc fuel) parent paths mode prefetched log =
    run_group env (sync_group env fuel) (is_sync_root env paths) parent paths mode prefetched log

unfoldable pub or_self : String → Option String → String
or_self path none = path
or_self path (some parent) = parent

-- `grouped.entry(parent).or_default().push(path)` for each path.
unfoldable pub group_by_parent : Environment → List String → List (String × List String)
unfolding or_self group_by
group_by_parent env paths =
    group_by (λ path. or_self path (env.parent path)) (λ path. path) paths []

unfoldable pub first_or : String → List String → String
first_or parent [] = parent
first_or parent (path ∷ paths) = path

unfoldable pub sync_groups :
    Environment → Run → SyncMode → List (String × List String) → Progress → Option Progress
unfolding push_error first_or
sync_groups env run mode [] p = some p
sync_groups env run mode ((parent, paths) ∷ groups) p =
    run parent paths mode none p.log >>= λ ended.
    sync_groups env run mode groups
      (push_error (first_or parent paths) ended.0 (record p { log = ended.1 }))

unfoldable pub sync_paths : Environment → ℕ → List String → SyncMode → Log → Result
unfolding sync_groups group_by_parent finish start sync_group
sync_paths env fuel [] mode log = some (none, log)
sync_paths env fuel (path ∷ paths) mode log = finish "sync_paths" (
    sync_groups env (sync_group env fuel) mode
      (env.order_groups log (group_by_parent env (path ∷ paths))) (start log))

-- ===== src/Drive/SyncRun/Careful.antt =====
-- A whole synchronisation, however many walks it makes, loses no local content without a reason that
-- was found in the same run.
use cloudreve_desktop.Prelude.{
  All, filter_by, String, ℕ, zero, suc, ◌≡◌, subst, some_inj, inl, inr, Bool, true, false, Option,
  none, some, List, [], ◌∷◌,
}
use cloudreve_desktop.Dict.{lookup, string_eq}
use cloudreve_desktop.Drive.Files.{FileResponse, missing}
use cloudreve_desktop.Drive.Changes.{unwrap_or}
use cloudreve_desktop.Drive.SyncPlan.Model.{SyncMode, SyncAction, WalkRequest, SyncPlan}
use cloudreve_desktop.Drive.SyncPlan.Build.{Entries, build_sync_plan}
use cloudreve_desktop.Drive.SyncPlan.Content.{Keeps, path_of}
use cloudreve_desktop.Drive.SyncPlan.Safety.{Stands, build_sync_plan-keeps_at}
use cloudreve_desktop.Drive.SyncRun.Calls.{Fault, Log, Environment, Progress, start}
use cloudreve_desktop.Drive.SyncRun.Gather.{Reading, collect_child_targets}
use cloudreve_desktop.Drive.SyncRun.Group.{
  Result, Run, prefetch, walk_children, process_walk_requests, is_immediate, finish, carry_out,
  plan_group, run_group, is_sync_root, root_walk, sync_group, sync_groups, sync_paths,
  group_by_parent,
}
use cloudreve_desktop.Drive.SyncRun.Honest.{If, If-bind}
use cloudreve_desktop.Drive.SyncRun.Seen.{
  Earlier-refl, Permitted, Permitted-later, Careful, Gives, Any, All-map,
}
use cloudreve_desktop.Drive.SyncRun.Reads.{Known, gather-Gives, collect_child_targets-Gives}
use cloudreve_desktop.Drive.SyncRun.Care.{Kept, Kept-trans, push_error-log, process_list-Kept}

-- What was planned from known states is permitted.
Permitted-planned :
    (env : Environment) (log : Log) (entries : Entries) (action : SyncAction)
    → Stands (env.host log) entries action
    → Known env log entries (path_of action)
    → Permitted env log (path_of action) action
unfolding unwrap_or
Permitted-planned env log entries action (shown, keeps, why)
      ((at_local, el, local), (at_row, er, row)) =
    record {
      when_planned = log;
      when_local = at_local;
      when_row = at_row;
      earlier_planned = Earlier-refl log;
      earlier_local = el;
      earlier_row = er;
      shown = shown;
      keeps =
          subst (λ i. Keeps (env.host log) (env.local_info at_local (path_of action)) i action) row
            (subst
              (λ l.
                Keeps (env.host log) (unwrap_or l missing)
                  (lookup (path_of action) entries.inventory_entries) action)
              local keeps);
    }

module _ (env : Environment) where
  abbrev KeptP : Log → Progress → Type 0
  KeptP base p = Kept env base p.log

  abbrev KeptR : Log → Option Fault × Log → Type 0
  KeptR base ended = Kept env base ended.1

  finish-Kept :
      (base : Log) (context : String) (ended : Option Progress)
      → If (KeptP base) ended
      → If (KeptR base) (finish context ended)
  unfolding finish
  finish-Kept base context none h = h
  finish-Kept base context (some p) h = h

  module _ (run : Run)
      (keeps : (parent : String) (paths : List String) (mode : SyncMode)
          (prefetched : Option (List (String × FileResponse))) (log : Log)
        → Careful env log
        → If (KeptR log) (run parent paths mode prefetched log)) where
    walk_children-Kept :
        (base : Log) (walk : WalkRequest) (p : Progress)
        (found : Reading (List String × List (String × FileResponse)))
        → Gives env base Any found
        → If (KeptP base) (walk_children run walk p found)
    unfolding walk_children
    walk_children-Kept base walk p (inl fault, log) h = rw push_error-log h
    walk_children-Kept base walk p (inr ([], files), log) (e, c, h) = (e, c)
    walk_children-Kept base walk p (inr (child ∷ children, files), log) (e, c, h) =
        If-bind (KeptR log) (KeptP base)
          (run walk.path (child ∷ children) walk.mode (prefetch files) log) _
          (keeps walk.path (child ∷ children) walk.mode (prefetch files) log c)
          (λ ended k. rw push_error-log (Kept-trans env {b = log} (e, c) k))

    process_walk_requests-Kept :
        (base : Log) (walks : List WalkRequest) (p : Progress)
        → KeptP base p
        → If (KeptP base) (process_walk_requests env run walks p)
    unfolding process_walk_requests
    process_walk_requests-Kept base [] p h = h
    process_walk_requests-Kept base (walk ∷ walks) p h =
        If-bind (KeptP p.log) (KeptP base)
          (walk_children run walk p (collect_child_targets env walk.path p.log)) _
          (walk_children-Kept p.log walk p _ (collect_child_targets-Gives env walk.path p.log h.1))
          (λ p' k. process_walk_requests-Kept base walks p' (Kept-trans env {b = p.log} h k))

    plan_group-Kept :
        (base : Log) (parent : String) (paths : List String) (mode : SyncMode)
        (found : Reading Entries)
        → Gives env base (λ entries log. All (Known env log entries) paths) found
        → If (KeptR base) (plan_group env run parent paths mode found)
    unfolding plan_group carry_out start
    plan_group-Kept base parent paths mode (inl fault, log) h = h
    plan_group-Kept base parent paths mode (inr entries, log) (e, c, known) =
        let plan : SyncPlan = build_sync_plan (env.host log) mode paths entries in
        finish-Kept base "sync_group" _ (
          If-bind (KeptP log) (KeptP base)
            (process_walk_requests env run (filter_by is_immediate plan.walk_requests) (start log))
            _ (process_walk_requests-Kept log _ (start log) (Earlier-refl log, c))
            (λ p h. process_walk_requests-Kept base _ _ (
              Kept-trans env {b = p.log} (Kept-trans env {b = log} (e, c) h) (
                process_list-Kept env parent plan.actions p
                  (All-map _ _ plan.actions
                    (λ a k.
                      Permitted-later {log = log} (Permitted-planned env log entries a k.0 k.1) h.0)
                    (build_sync_plan-keeps_at (env.host log) mode entries (Known env log entries)
                      paths known))
                  h.1))))

    run_group-Kept :
        (is_root : Bool) (parent : String) (paths : List String) (mode : SyncMode)
        (prefetched : Option (List (String × FileResponse))) (log : Log)
        → Careful env log
        → If (KeptR log) (run_group env run is_root parent paths mode prefetched log)
    unfolding run_group start
    run_group-Kept true parent paths mode prefetched log c =
        finish-Kept log "sync_group" _ (
          process_walk_requests-Kept log (root_walk env mode ∷ []) (start log)
            (Earlier-refl log, c))
    run_group-Kept false parent paths mode prefetched log c =
        plan_group-Kept log parent paths mode _ (gather-Gives env parent paths prefetched log c)

    sync_groups-Kept :
        (base : Log) (mode : SyncMode) (groups : List (String × List String)) (p : Progress)
        → KeptP base p
        → If (KeptP base) (sync_groups env run mode groups p)
    unfolding sync_groups
    sync_groups-Kept base mode [] p h = h
    sync_groups-Kept base mode ((parent, paths) ∷ groups) p h =
        If-bind (KeptR p.log) (KeptP base) (run parent paths mode none p.log) _
          (keeps parent paths mode none p.log h.1)
          (λ ended k.
            sync_groups-Kept base mode groups _
              (rw push_error-log (Kept-trans env {b = p.log} h k)))

  sync_group-Kept :
      (fuel : ℕ) (parent : String) (paths : List String) (mode : SyncMode)
      (prefetched : Option (List (String × FileResponse))) (log : Log)
      → Careful env log
      → If (KeptR log) (sync_group env fuel parent paths mode prefetched log)
  unfolding sync_group
  sync_group-Kept zero parent paths mode prefetched log c = tt
  sync_group-Kept (suc fuel) parent paths mode prefetched log c =
      run_group-Kept (sync_group env fuel) (sync_group-Kept fuel) (is_sync_root env paths) parent
        paths mode prefetched log c

  Careful-of :
      {outcome : Option Fault} {log : Log} (r : Result)
      → r ≡ some (outcome, log)
      → If (KeptR []) r
      → Careful env log
  Careful-of none e h = absurd cc
  Careful-of (some ended) e h =
      subst (λ (x : Option Fault × Log). Careful env x.1) (some_inj.0 e) h.1

  -- In every synchronisation that ends, whatever the calls answer, each call that can lose local
  -- content (the deletion of a path, the download over it, the dropping of its local bytes) comes after
  -- the same run planned it: at an earlier moment the path was not ignored, and the local state and
  -- the inventory row that were read of it before permitted the action. A deletion that is to spare
  -- directories with content comes after a look at the directory.
  pub sync_paths-Careful :
      (fuel : ℕ) (paths : List String) (mode : SyncMode) (outcome : Option Fault) (log : Log)
      → sync_paths env fuel paths mode [] ≡ some (outcome, log)
      → Careful env log
  unfolding sync_paths start
  sync_paths-Careful fuel [] mode outcome log e = Careful-of _ e (Earlier-refl [], tt)
  sync_paths-Careful fuel (path ∷ paths) mode outcome log e = Careful-of _ e (
      finish-Kept [] "sync_paths" _ (
        sync_groups-Kept (sync_group env fuel) (sync_group-Kept fuel) [] mode
          (env.order_groups [] (group_by_parent env (path ∷ paths))) (start [])
          (Earlier-refl [], tt)))

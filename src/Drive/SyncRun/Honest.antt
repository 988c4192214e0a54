-- ===== src/Drive/SyncRun/Honest.antt =====
-- The result of a synchronisation is an error exactly if a call failed that is not tolerated.
use cloudreve_desktop.Prelude.{
  ◌>>=◌, String, ℕ, zero, suc, ◌≡◌, inl, inr, Bool, true, false, ◌&&◌, Option, none, some, List, [],
  ◌∷◌, arith, filter_by,
}
use cloudreve_desktop.Drive.Files.{FileResponse}
use cloudreve_desktop.Drive.SyncPlan.Model.{SyncMode, WalkRequest, SyncPlan}
use cloudreve_desktop.Drive.SyncPlan.Build.{Entries, build_sync_plan}
use cloudreve_desktop.Drive.SyncRun.Calls.{
  Fault, Faults, Log, Environment, Progress, start, is_empty, into_result,
}
use cloudreve_desktop.Drive.SyncRun.Gather.{Reading, collect_child_targets}
use cloudreve_desktop.Drive.SyncRun.Group.{
  Result, Run, prefetch, walk_children, process_walk_requests, is_immediate, finish, carry_out,
  plan_group, run_group, is_sync_root, root_walk, sync_group, sync_groups, sync_paths, first_or,
  group_by_parent,
}
use cloudreve_desktop.Drive.SyncRun.Errors.{
  clean, succeeded, Told, collect_child_targets-Told, gather-Told,
}
use cloudreve_desktop.Drive.SyncRun.Counted.{Counted, push_error-Counted, process_list-Counted}

-- What holds of what is returned, if the fuel does not run out.
abbrev pub If {ℓ} : {A : Type 0} → (A → Type ℓ) → Option A → Type ℓ
If P none = Unit
If P (some a) = P a

pub If-bind :
    {A B : Type 0} (P : A → Type 0) (R : B → Type 0) (m : Option A) (f : A → Option B)
    → If P m
    → ((a : A) → P a → If R (f a))
    → If R (m >>= f)
If-bind P R none f p k = tt
If-bind P R (some a) f p k = k a p

-- From a log, a group ends with an error exactly if a call since was not tolerated.
abbrev Reports : Log → Option Fault × Log → Type 0
Reports base ended = clean ended.1 ≡ (clean base && succeeded ended.0)

into_result-Reports :
    (base : Log) (context : String) (p : Progress)
    → Counted base p
    → Reports base (into_result context p.errors, p.log)
into_result-Reports base context p h = go p.errors h
  where
    go :
        (errors : Faults)
        → clean p.log ≡ (clean base && is_empty errors)
        → Reports base (into_result context errors, p.log)
    go Faults.empty h = unfold into_result in h
    go (Faults.entry path fault rest) h = unfold into_result in h

finish-Reports :
    (base : Log) (context : String) (ended : Option Progress)
    → If (Counted base) ended
    → If (Reports base) (finish context ended)
unfolding finish
finish-Reports base context ended h =
    If-bind (Counted base) (Reports base) ended _ h (λ p. into_result-Reports base context p)

start-Counted : (base : Log) → Counted base (start base)
unfolding start
start-Counted base = ground arith

module _ (env : Environment) (run : Run)
    (reports : (parent : String) (paths : List String) (mode : SyncMode)
        (prefetched : Option (List (String × FileResponse))) (log : Log)
      → If (Reports log) (run parent paths mode prefetched log)) where
  walk_children-Counted :
      (base : Log) (walk : WalkRequest) (p : Progress)
      (found : Reading (List String × List (String × FileResponse)))
      → Told p.log found
      → Counted base p
      → If (Counted base) (walk_children run walk p found)
  unfolding walk_children
  walk_children-Counted base walk p (inl fault, log) t h =
      push_error-Counted base log walk.path (some fault) p (ground arith) h
  walk_children-Counted base walk p (inr ([], files), log) t h = ground arith
  walk_children-Counted base walk p (inr (child ∷ children, files), log) t h =
      If-bind (Reports log) (Counted base)
        (run walk.path (child ∷ children) walk.mode (prefetch files) log) _
        (reports walk.path (child ∷ children) walk.mode (prefetch files) log)
        (λ ended r. push_error-Counted base ended.1 walk.path ended.0 p (ground arith) h)

  process_walk_requests-Counted :
      (base : Log) (walks : List WalkRequest) (p : Progress)
      → Counted base p
      → If (Counted base) (process_walk_requests env run walks p)
  unfolding process_walk_requests
  process_walk_requests-Counted base [] p h = h
  process_walk_requests-Counted base (walk ∷ walks) p h =
      If-bind (Counted base) (Counted base)
        (walk_children run walk p (collect_child_targets env walk.path p.log)) _
        (walk_children-Counted base walk p _ (collect_child_targets-Told env walk.path p.log) h)
        (λ p' h'. process_walk_requests-Counted base walks p' h')

  plan_group-Reports :
      (base : Log) (parent : String) (paths : List String) (mode : SyncMode)
      (found : Reading Entries)
      → Told base found
      → If (Reports base) (plan_group env run parent paths mode found)
  unfolding plan_group carry_out
  plan_group-Reports base parent paths mode (inl fault, log) t = ground arith
  plan_group-Reports base parent paths mode (inr entries, log) t =
      let plan : SyncPlan = build_sync_plan (env.host log) mode paths entries in
      finish-Reports base "sync_group" _ (
        If-bind (Counted base) (Counted base)
          (process_walk_requests env run (filter_by is_immediate plan.walk_requests) (start log)) _
          (process_walk_requests-Counted base _ (start log) (started t))
          (λ p h.
            process_walk_requests-Counted base _ _
              (process_list-Counted env base parent plan.actions p h)))
    where
      started : clean log ≡ clean base → Counted base (start log)
      started t = unfold start in ground arith

  run_group-Reports :
      (is_root : Bool) (parent : String) (paths : List String) (mode : SyncMode)
      (prefetched : Option (List (String × FileResponse))) (log : Log)
      → If (Reports log) (run_group env run is_root parent paths mode prefetched log)
  unfolding run_group
  run_group-Reports true parent paths mode prefetched log =
      finish-Reports log "sync_group" _ (
        process_walk_requests-Counted log (root_walk env mode ∷ []) (start log) (start-Counted log))
  run_group-Reports false parent paths mode prefetched log =
      plan_group-Reports log parent paths mode _ (gather-Told env parent paths prefetched log)

  sync_groups-Counted :
      (base : Log) (mode : SyncMode) (groups : List (String × List String)) (p : Progress)
      → Counted base p
      → If (Counted base) (sync_groups env run mode groups p)
  unfolding sync_groups
  sync_groups-Counted base mode [] p h = h
  sync_groups-Counted base mode ((parent, paths) ∷ groups) p h =
      If-bind (Reports p.log) (Counted base) (run parent paths mode none p.log) _
        (reports parent paths mode none p.log)
        (λ ended r.
          sync_groups-Counted base mode groups _
            (push_error-Counted base ended.1 (first_or parent paths) ended.0 p r h))

module _ (env : Environment) where
  sync_group-Reports :
      (fuel : ℕ) (parent : String) (paths : List String) (mode : SyncMode)
      (prefetched : Option (List (String × FileResponse))) (log : Log)
      → If (Reports log) (sync_group env fuel parent paths mode prefetched log)
  unfolding sync_group
  sync_group-Reports zero parent paths mode prefetched log = tt
  sync_group-Reports (suc fuel) parent paths mode prefetched log =
      run_group-Reports env (sync_group env fuel) (sync_group-Reports fuel) (is_sync_root env paths)
        parent paths mode prefetched log

  -- A synchronisation that ends returns `Ok(())` exactly if none of its calls, in whatever group or
  -- walk, failed but for those whose failure the code tolerates (a cancellation, the URI of a
  -- walked directory, a missing directory), and no received item had become unavailable.
  pub sync_paths-reports :
      (fuel : ℕ) (paths : List String) (mode : SyncMode) (outcome : Option Fault) (log : Log)
      → sync_paths env fuel paths mode [] ≡ some (outcome, log)
      → succeeded outcome ≡ clean log
  unfolding sync_paths
  sync_paths-reports fuel [] mode outcome log e = cc
  sync_paths-reports fuel (path ∷ paths) mode outcome log e = report _ e (
      finish-Reports [] "sync_paths" _ (
        sync_groups-Counted env (sync_group env fuel) (sync_group-Reports fuel) [] mode
          (env.order_groups [] (group_by_parent env (path ∷ paths))) (start []) (start-Counted [])))
    where
      report :
          (r : Result) → r ≡ some (outcome, log) → If (Reports []) r → succeeded outcome ≡ clean log
      report none e h = absurd cc
      report (some ended) e h = cc

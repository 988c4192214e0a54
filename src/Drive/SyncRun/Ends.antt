-- ===== src/Drive/SyncRun/Ends.antt =====
-- A synchronisation ends: every walk goes one level down, so that fuel above the height of the paths is
-- enough where the directories that are listed have a height.
use cloudreve_desktop.Prelude.{
  ltb, ◌>>=◌, and_right, all, subst, eq_iff, All, ℕ, suc, String, ◌≡◌, refl, inl, inr, Bool, true,
  false, Option, none, some, List, [], ◌∷◌, arith, filter_by, zero, ◌<◌,
}
use cloudreve_desktop.Dict.{string_eq}
use cloudreve_desktop.Drive.Files.{FileResponse}
use cloudreve_desktop.Drive.SyncPlan.Model.{SyncMode, WalkRequest, SyncPlan}
use cloudreve_desktop.Drive.SyncPlan.Build.{Entries, build_sync_plan}
use cloudreve_desktop.Drive.SyncPlan.Requests.{build_sync_plan-walks}
use cloudreve_desktop.Drive.SyncRun.Calls.{Environment, Progress, Log, Fault, start}
use cloudreve_desktop.Drive.SyncRun.Gather.{Reading, collect_child_targets, gather}
use cloudreve_desktop.Drive.SyncRun.Group.{
  Run, prefetch, walk_children, process_walk_requests, is_immediate, finish, carry_out, plan_group,
  run_group, is_sync_root, root_walk, sync_group, or_self, group_by_parent, sync_groups, sync_paths,
}
use cloudreve_desktop.Drive.SyncRun.LowerGroups.{
  and_left, lower_group, lower_groups, group_by-lower,
}
use cloudreve_desktop.Drive.SyncRun.Lower.{
  IsFinite, Reads, below, All-of_all, all_of_All, collect_child_targets-lower,
}

-- The fuel does not run out.
abbrev Ends : {A : Type 0} → Option A → Type 0
Ends {A} r = (a : A) × (r ≡ some a)

Ends-bind :
    {A B : Type 0} (m : Option A) (f : A → Option B)
    → Ends m
    → ((a : A) → Ends (f a))
    → Ends (m >>= f)
Ends-bind none f (a, e) k = absurd cc
Ends-bind (some b) f (a, e) k = k b

All-filter_by {ℓ κ} :
    {A : Type ℓ} (P : A → Type κ) (test : A → Bool) (xs : List A)
    → All P xs
    → All P (filter_by test xs)
All-filter_by P test [] p = tt
All-filter_by P test (x ∷ xs) (p, ps) =
    elim (test x)
      as (λ b. All P (elim b [ true ↦ x ∷ filter_by test xs | false ↦ filter_by test xs ])) [
        | true ↦ (p, All-filter_by P test xs ps)
        | false ↦ All-filter_by P test xs ps
      ]

module _ (env : Environment) (height : String → ℕ) (finite : IsFinite env height) where
  -- Groups of paths that are lower than `n` end.
  abbrev EndsBelow : ℕ → Run → Type 0
  EndsBelow n run =
      (parent path : String) (paths : List String) (mode : SyncMode)
      (prefetched : Option (List (String × FileResponse))) (log : Log)
      → all (below height n) (path ∷ paths) ≡ true
      → Ends (run parent (path ∷ paths) mode prefetched log)

  all-below_mono :
      (n m : ℕ) (xs : List String)
      → ltb m (suc n) ≡ true
      → all (below height m) xs ≡ true
      → all (below height n) xs ≡ true
  all-below_mono n m [] h p = refl
  all-below_mono n m (x ∷ xs) h p =
      ground (arith, all-below_mono n m xs h (and_right (below height m x) _ p))

  module _ (n : ℕ) (run : Run) (ends : EndsBelow n run) where
    walk_children-Ends :
        (walk : WalkRequest) (p : Progress)
        (found : Reading (List String × List (String × FileResponse)))
        → Reads (λ f. all (below height n) f.0 ≡ true) found
        → Ends (walk_children run walk p found)
    unfolding walk_children
    walk_children-Ends walk p (inl fault, log) h = (_, refl)
    walk_children-Ends walk p (inr ([], files), log) h = (_, refl)
    walk_children-Ends walk p (inr (child ∷ children, files), log) h =
        Ends-bind (run walk.path (child ∷ children) walk.mode (prefetch files) log) _
          (ends walk.path child children walk.mode (prefetch files) log h) (λ ended. (_, refl))

    Reads-weaken :
        (m : ℕ) (found : Reading (List String × List (String × FileResponse)))
        → ltb m (suc n) ≡ true
        → Reads (λ f. all (below height m) f.0 ≡ true) found
        → Reads (λ f. all (below height n) f.0 ≡ true) found
    Reads-weaken m (inl fault, log) h r = tt
    Reads-weaken m (inr (paths, files), log) h r = all-below_mono n m paths h r

    process_walk_requests-Ends :
        (walks : List WalkRequest) (p : Progress)
        → All (λ walk. below height (suc n) walk.path ≡ true) walks
        → Ends (process_walk_requests env run walks p)
    unfolding process_walk_requests
    process_walk_requests-Ends [] p h = (p, refl)
    process_walk_requests-Ends (walk ∷ walks) p (here, later) =
        Ends-bind (walk_children run walk p (collect_child_targets env walk.path p.log)) _
          (walk_children-Ends walk p _ (
            Reads-weaken (height walk.path) _ here
              (collect_child_targets-lower env height finite walk.path p.log)))
          (λ p'. process_walk_requests-Ends walks p' later)

    carry_out-Ends :
        (parent : String) (plan : SyncPlan) (log : Log)
        → All (λ walk. below height (suc n) walk.path ≡ true) plan.walk_requests
        → Ends (carry_out env run parent plan log)
    unfolding carry_out
    carry_out-Ends parent plan log h =
        Ends-bind
          (process_walk_requests env run (filter_by is_immediate plan.walk_requests) (start log)) _
          (process_walk_requests-Ends _ (start log) (All-filter_by _ is_immediate _ h))
          (λ p. process_walk_requests-Ends _ _ (All-filter_by _ _ _ h))

    plan_group-Ends :
        (parent : String) (paths : List String) (mode : SyncMode) (found : Reading Entries)
        → all (below height (suc n)) paths ≡ true
        → Ends (plan_group env run parent paths mode found)
    unfolding plan_group finish
    plan_group-Ends parent paths mode (inl fault, log) h = (_, refl)
    plan_group-Ends parent paths mode (inr entries, log) h =
        Ends-bind (carry_out env run parent (build_sync_plan (env.host log) mode paths entries) log)
          _
          (carry_out-Ends parent (build_sync_plan (env.host log) mode paths entries) log (
            build_sync_plan-walks (λ path. below height (suc n) path ≡ true) (env.host log) mode
              paths entries (All-of_all _ paths h)))
          (λ p. (_, refl))

    is_sync_root-below :
        (paths : List String)
        → is_sync_root env paths ≡ true
        → all (below height (suc n)) paths ≡ true
        → below height (suc n) env.sync_path ≡ true
    unfolding is_sync_root
    is_sync_root-below [] root h = absurd cc
    is_sync_root-below (path ∷ []) root h =
        subst (λ p. below height (suc n) p ≡ true) ((eq_iff path env.sync_path).0 root)
          (All-of_all (below height (suc n)) (path ∷ []) h).0
    is_sync_root-below (path ∷ other ∷ paths) root h = absurd cc

    run_group-Ends :
        (is_root : Bool) (parent : String) (paths : List String) (mode : SyncMode)
        (prefetched : Option (List (String × FileResponse))) (log : Log)
        → is_sync_root env paths ≡ is_root
        → all (below height (suc n)) paths ≡ true
        → Ends (run_group env run is_root parent paths mode prefetched log)
    unfolding run_group finish
    run_group-Ends false parent paths mode prefetched log root h =
        plan_group-Ends parent paths mode (gather env parent paths prefetched log) h
    run_group-Ends true parent paths mode prefetched log root h =
        Ends-bind (process_walk_requests env run (root_walk env mode ∷ []) (start log)) _
          (process_walk_requests-Ends (root_walk env mode ∷ []) (start log)
            (is_sync_root-below paths root h, tt))
          (λ p. (_, refl))

  sync_group-Ends : (fuel : ℕ) → EndsBelow fuel (sync_group env fuel)
  unfolding sync_group
  sync_group-Ends zero parent path paths mode prefetched log h = absurd (none_below_zero h)
    where
      none_below_zero : all (below height 0) (path ∷ paths) ≡ true → ⊥
      none_below_zero h = ground (arith, All-of_all (below height 0) (path ∷ paths) h)
  sync_group-Ends (suc fuel) parent path paths mode prefetched log h =
      run_group-Ends fuel (sync_group env fuel) (sync_group-Ends fuel)
        (is_sync_root env (path ∷ paths)) parent (path ∷ paths) mode prefetched log refl h

  sync_groups-Ends :
      (fuel : ℕ) (mode : SyncMode) (groups : List (String × List String)) (p : Progress)
      → lower_groups height fuel groups ≡ true
      → Ends (sync_groups env (sync_group env fuel) mode groups p)
  unfolding sync_groups
  sync_groups-Ends fuel mode [] p h = (p, refl)
  sync_groups-Ends fuel mode ((parent, []) ∷ groups) p h = absurd cc
  sync_groups-Ends fuel mode ((parent, path ∷ paths) ∷ groups) p h =
      Ends-bind (sync_group env fuel parent (path ∷ paths) mode none p.log) _
        (sync_group-Ends fuel parent path paths mode none p.log (and_left _ _ h))
        (λ ended.
          sync_groups-Ends fuel mode groups _
            (and_right (all (below height fuel) (path ∷ paths)) _ h))

  -- Where the tree that the walks see is finite, so that every listed child is lower than its
  -- directory, a synchronisation ends, whatever its mode and whatever the calls answer: fuel above the
  -- heights of the paths does not run out.
  pub sync_paths-ends :
      (fuel : ℕ) (paths : List String) (mode : SyncMode) (log : Log)
      → All (λ path. height path < fuel) paths
      → (ended : Option Fault × Log) × (sync_paths env fuel paths mode log ≡ some ended)
  unfolding sync_paths finish group_by_parent
  sync_paths-ends fuel [] mode log h = (_, refl)
  sync_paths-ends fuel (path ∷ paths) mode log h =
      Ends-bind _ _
        (sync_groups-Ends fuel mode _ (start log) (
          finite.order_groups_holds log _ (lower_group height fuel) (
            group_by-lower height fuel (λ p. or_self p (env.parent p)) (path ∷ paths) []
              (all_of_All height fuel (path ∷ paths) h) refl)))
        (λ p. (_, refl))

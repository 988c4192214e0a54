-- ===== src/Drive/SyncPlan/Walked.antt =====
-- The walks that a plan of drive/sync.rs requests are those of the directories that are due.
use cloudreve_desktop.Prelude.{
  if-rule, String, ◌≡◌, refl, Bool, true, false, ◌&&◌, arith, Bool-cases, any, All, In,
  In-append_left, In-append_right, sym, subst, inl, inr, List, [], ◌∷◌, eq_iff, str_eq,
}
use cloudreve_desktop.Dict.{string_eq}
use cloudreve_desktop.Drive.Fingerprint.{Host}
use cloudreve_desktop.Drive.SyncPlan.Model.{
  SyncMode, WalkReason, WalkTiming, WalkRequest, SyncPlan, mode_eq, next_child_mode,
}
use cloudreve_desktop.Drive.SyncPlan.Build.{Entries, plan_path, plan_paths, build_sync_plan}
use cloudreve_desktop.Drive.SyncPlan.Content.{All-snoc}
use cloudreve_desktop.Drive.SyncPlan.Requests.{Distinct, build_sync_plan-WalksIn}
use cloudreve_desktop.Drive.SyncPlan.Due.{inserted, Asked}
use cloudreve_desktop.Drive.SyncPlan.Asked.{walk_due, plan_path-Asked}

-- A walk of the path is among the requests.
abbrev pub Requested : String → List WalkRequest → Type 0
Requested path requests = (r : WalkRequest) × In r requests × (r.path ≡ path)

known-Requested :
    (path : String) (mode : SyncMode) (requests : List WalkRequest)
    → any (λ request. str_eq request.path path && mode_eq request.mode mode) requests ≡ true
    → Requested path requests
known-Requested path mode [] h = absurd cc
known-Requested path mode (r ∷ requests) h = elim (Bool-cases (str_eq r.path path)) [
  | inl same ↦ (r, inl refl, (eq_iff r.path path).0 same)
  | inr other ↦
      let (q, here, at_path) = known-Requested path mode requests (rest other h) in
      (q, inr here, at_path)
]
  where
    rest :
        str_eq r.path path ≡ false
        → any (λ request. str_eq request.path path && mode_eq request.mode mode) (r ∷ requests)
          ≡ true
        → any (λ request. str_eq request.path path && mode_eq request.mode mode) requests ≡ true
    rest other h = ground (arith, other, h)

inserted-Requested :
    (path : String) (mode : SyncMode) (reason : WalkReason) (timing : WalkTiming)
    (requests : List WalkRequest)
    → Requested path (inserted path mode reason timing requests)
inserted-Requested path mode reason timing requests =
    if-rule (Requested path)
      (any (λ request. str_eq request.path path && mode_eq request.mode mode) requests)
      (known-Requested path mode requests)
      (λ fresh. (_, In-append_right _ requests _ (inl refl), refl))

inserted-In :
    (path : String) (mode : SyncMode) (reason : WalkReason) (timing : WalkTiming)
    (requests : List WalkRequest) (r : WalkRequest)
    → In r requests
    → In r (inserted path mode reason timing requests)
inserted-In path mode reason timing requests r h =
    if-rule (In r) (any (λ request. str_eq request.path path && mode_eq request.mode mode) requests)
      (λ known. h) (λ fresh. In-append_left r requests _ h)

Asked-Requested :
    (due : Bool) (path : String) (mode : SyncMode) (before after : List WalkRequest)
    → Asked due path mode before after
    → due ≡ true
    → Requested path after
Asked-Requested false path mode before after a h = absurd cc
Asked-Requested true path mode before after (reason, timing, e) h =
    subst (Requested path) (sym e) (inserted-Requested path _ reason timing before)

Asked-later :
    (due : Bool) (path q : String) (mode : SyncMode) (before after : List WalkRequest)
    → Asked due path mode before after
    → Requested q before
    → Requested q after
Asked-later false path q mode before after e k = subst (Requested q) (sym e) k
Asked-later true path q mode before after (reason, timing, e) (r, h, at_path) =
    subst (Requested q) (sym e) (r, inserted-In path _ reason timing before r h, at_path)

Asked-All :
    (P : String → Type 0) (due : Bool) (path : String) (mode : SyncMode)
    (before after : List WalkRequest)
    → Asked due path mode before after
    → (due ≡ true → P path)
    → All (λ r. P r.path) before
    → All (λ r. P r.path) after
Asked-All P false path mode before after e p h = subst (All (λ r. P r.path)) (sym e) h
Asked-All P true path mode before after (reason, timing, e) p h =
    subst (All (λ (r : WalkRequest). P r.path)) (sym e) (
      if-rule (All (λ (r : WalkRequest). P r.path))
        (any (λ request. str_eq request.path path && mode_eq request.mode (next_child_mode mode))
          before)
        (λ known. h) (λ fresh. All-snoc _ before _ h (p refl)))

-- The mode of the walks below a directory that is synchronised in a mode.
pub data ChildMode : SyncMode → SyncMode → Type 0 where
  none_deeper : ChildMode SyncMode.path_only SyncMode.path_only
  one_layer : ChildMode SyncMode.path_and_first_layer SyncMode.path_only
  all_layers : ChildMode SyncMode.full_hierarchy SyncMode.full_hierarchy

next_child_mode-ChildMode : (mode : SyncMode) → ChildMode mode (next_child_mode mode)
unfolding next_child_mode
next_child_mode-ChildMode SyncMode.path_only = none_deeper
next_child_mode-ChildMode SyncMode.path_and_first_layer = one_layer
next_child_mode-ChildMode SyncMode.full_hierarchy = all_layers

All-modes :
    (mode : SyncMode) (requests : List WalkRequest)
    → All (λ r. r.mode ≡ next_child_mode mode) requests
    → All (λ r. ChildMode mode r.mode) requests
All-modes mode [] h = tt
All-modes mode (r ∷ requests) (e, h) =
    (subst (ChildMode mode) (sym e) (next_child_mode-ChildMode mode), All-modes mode requests h)

All-In :
    (paths all_paths : List String)
    → ((path : String) → In path paths → In path all_paths)
    → All (λ path. In path all_paths) paths
All-In [] all_paths h = tt
All-In (path ∷ paths) all_paths h = (h path (inl refl), All-In paths all_paths (λ q k. h q (inr k)))

-- The requests are for walks of the paths that are due, one for each, in the mode of the children.
pub record Walks (host : Host) (mode : SyncMode) (entries : Entries) (paths : List String)
    (requests : List WalkRequest) : Type 0 where
  pub modes : All (λ r. ChildMode mode r.mode) requests
  pub distinct : Distinct requests
  pub only_due : All (λ r. In r.path paths × (walk_due host mode entries r.path ≡ true)) requests
  pub all_due :
      (path : String)
      → In path paths
      → walk_due host mode entries path ≡ true
      → Requested path requests

module _ (host : Host) (mode : SyncMode) (entries : Entries) where
  plan_paths-only :
      (Q : String → Type 0) (paths : List String) (plan : SyncPlan)
      → All Q paths
      → All (λ r. Q r.path × (walk_due host mode entries r.path ≡ true)) plan.walk_requests
      → All
          (λ r. Q r.path × (walk_due host mode entries r.path ≡ true))
          (plan_paths host mode entries paths plan).walk_requests
  unfolding plan_paths
  plan_paths-only Q [] plan q h = h
  plan_paths-only Q (path ∷ paths) plan (here, later) h =
      plan_paths-only Q paths (plan_path host mode entries path plan) later (
        Asked-All (λ p. Q p × (walk_due host mode entries p ≡ true)) _ path mode _ _
          (plan_path-Asked host mode entries path plan) (λ due. (here, due)) h)

  plan_paths-kept :
      (paths : List String) (plan : SyncPlan) (q : String)
      → Requested q plan.walk_requests
      → Requested q (plan_paths host mode entries paths plan).walk_requests
  unfolding plan_paths
  plan_paths-kept [] plan q h = h
  plan_paths-kept (path ∷ paths) plan q h =
      plan_paths-kept paths (plan_path host mode entries path plan) q
        (Asked-later _ path q mode _ _ (plan_path-Asked host mode entries path plan) h)

  plan_paths-all :
      (paths : List String) (plan : SyncPlan) (q : String)
      → In q paths
      → walk_due host mode entries q ≡ true
      → Requested q (plan_paths host mode entries paths plan).walk_requests
  unfolding plan_paths
  plan_paths-all [] plan q h due = absurd h
  plan_paths-all (path ∷ paths) plan q (inl e) due =
      plan_paths-kept paths (plan_path host mode entries path plan) q (
        subst (λ p. Requested p (plan_path host mode entries path plan).walk_requests) (sym e)
          (Asked-Requested _ path mode _ _ (plan_path-Asked host mode entries path plan)
            (subst (λ p. walk_due host mode entries p ≡ true) e due)))
  plan_paths-all (path ∷ paths) plan q (inr h) due =
      plan_paths-all paths (plan_path host mode entries path plan) q h due

-- The plan of a group requests walks of exactly those of its paths that are not ignored and are local
-- directories of which either the server has a directory too, the children are on disk or it is no
-- placeholder, and the mode goes below the group; or the server has nothing, the children are on disk,
-- and it was not received from another user. No two requests are for one path, and all are in full
-- mode if the group's is, and else for the path only.
pub build_sync_plan-Walks :
    (host : Host) (mode : SyncMode) (paths : List String) (entries : Entries)
    → Walks host mode entries paths (build_sync_plan host mode paths entries).walk_requests
unfolding build_sync_plan
build_sync_plan-Walks host mode paths entries =
    let (modes, distinct) = build_sync_plan-WalksIn host mode paths entries in
    record {
      modes = All-modes mode _ modes;
      distinct = distinct;
      only_due =
          plan_paths-only host mode entries (λ p. In p paths) paths _
            (All-In paths paths (λ p h. h)) tt;
      all_due = plan_paths-all host mode entries paths _;
    }

-- ===== src/Drive/RemoteEvents/Groups.antt =====
-- A batch of events: what it synchronises is below the sync root, and no event is lost.
use cloudreve_desktop.Prelude.{
  In, String, ◌≡◌, sym, ap, subst, false, inl, inr, some, List, [], ◌∷◌, arith, Bool-cases,
  Option-cases, drop, filter_by, In-append_left, In-append_right, ℕ, refl, ◌∙◌, Bool, true, none,
}
use cloudreve_desktop.Dict.{lookup, Eq}
use cloudreve_desktop.Dict.Groups.{group, group-group_by, values_at, or_default}
use cloudreve_desktop.Drive.RemoteEvents.{
  path_eq, FilePath, SyncCommand, Surroundings, Outcome, path_beq, path_beq_iff, choose, sent,
  FileEventData, sync_last_presented_parent, sync_groups, with_parent, first_of, second_of,
  group_by_parent, from_paths, is_create_update, handle_some, handle_create_update_events,
  handle_file_events,
}
use cloudreve_desktop.Drive.RemoteEvents.Presented.{
  IsNearest, below, sync_last_presented_parent-IsNearest,
}

module _ {K V : Type 0} ⦃e : Eq K⦄ where
  -- What a key is looked up to is an entry of the map.
  lookup-In : (k : K) (v : V) (m : List (K × V)) → lookup k m ≡ some v → In (k, v) m
  unfolding lookup
  lookup-In k v [] h = absurd cc
  lookup-In k v ((j, w) ∷ m) h = elim (Bool-cases (e.beq j k)) [
    | inl same ↦ inl (ground (arith, e.beq_iff j k))
    | inr distinct ↦ inr (lookup-In k v m (rw distinct at h))
  ]

values_at-In :
    (name : String) (parent : FilePath) (paths : List FilePath)
    → In (name ∷ parent) paths
    → In (name ∷ parent) (values_at first_of second_of parent (with_parent paths))
values_at-In name parent [] h = absurd h
values_at-In name parent ([] ∷ paths) (inl e) = absurd cc
values_at-In name parent ([] ∷ paths) (inr h) = values_at-In name parent paths h
values_at-In name parent ((c ∷ p) ∷ paths) h = elim (Bool-cases (path_beq p parent)) [
  | inl same ↦ rw same (now h (values_at-In name parent paths))
  | inr distinct ↦ rw distinct (later distinct h (values_at-In name parent paths))
]
  where
    Found : Type 0
    Found = In (name ∷ parent) (values_at first_of second_of parent (with_parent paths))

    now :
        In (name ∷ parent) ((c ∷ p) ∷ paths)
        → (In (name ∷ parent) paths → Found)
        → In (name ∷ parent) ((c ∷ p) ∷ values_at first_of second_of parent (with_parent paths))
    now (inl e) rest = inl e
    now (inr h) rest = inr (rest h)

    later :
        path_beq p parent ≡ false
        → In (name ∷ parent) ((c ∷ p) ∷ paths)
        → (In (name ∷ parent) paths → Found)
        → Found
    later d (inl e) rest = absurd (ground (arith, path_beq_iff p parent))
    later d (inr h) rest = rest h

-- Each path stands in the group of its parent.
group_by_parent-In :
    (name : String) (parent : FilePath) (paths : List FilePath)
    → In (name ∷ parent) paths
    → (group : List FilePath) × In (parent, group) (group_by_parent paths)
      × In (name ∷ parent) group
unfolding group_by_parent lookup
group_by_parent-In name parent paths h =
    elim (Option-cases (lookup parent (group_by_parent paths))) [
      | inl missing ↦ absurd (subst (λ g. In (name ∷ parent) g) (ap or_default missing) stands)
      | inr (found, e) ↦ (
        found,
        lookup-In parent found _ e,
        subst (λ g. In (name ∷ parent) g) (ap or_default e) stands,
      )
    ]
  where
    stands : In (name ∷ parent) (group parent (group_by_parent paths))
    stands =
        subst (λ g. In (name ∷ parent) g)
          (sym (group-group_by first_of second_of parent (with_parent paths) []))
          (values_at-In name parent paths h)

sent-In : (c : SyncCommand) (outcome : Outcome) → outcome ≡ inr (some c) → In c (sent outcome)
unfolding sent
sent-In c (inl error) e = absurd cc
sent-In c (inr none) e = absurd cc
sent-In c (inr (some d)) e = inl cc

sync_groups-In :
    (s : Surroundings) (sync_root parent : FilePath) (paths : List FilePath) (c : SyncCommand)
    (groups : List (FilePath × List FilePath))
    → In (parent, paths) groups
    → sync_last_presented_parent s sync_root parent paths ≡ inr (some c)
    → In c (sync_groups s sync_root groups)
unfolding sync_groups
sync_groups-In s sync_root parent paths c [] h e = absurd h
sync_groups-In s sync_root parent paths c ((p, ps) ∷ groups) (inl same) e =
    In-append_left c (sent (sync_last_presented_parent s sync_root p ps)) _
      (sent-In c _ (sym (here same) ∙ e))
  where
    here :
        ◌≡◌ {A = FilePath × List FilePath} (parent, paths) (p, ps)
        → sync_last_presented_parent s sync_root parent paths
          ≡ sync_last_presented_parent s sync_root p ps
    here same =
        ap (λ (g : FilePath × List FilePath). sync_last_presented_parent s sync_root g.0 g.1) same
sync_groups-In s sync_root parent paths c ((p, ps) ∷ groups) (inr later) e =
    In-append_right c (sent (sync_last_presented_parent s sync_root p ps)) _
      (sync_groups-In s sync_root parent paths c groups later e)

-- Iterating over a hash map gives its entries.
pub record IsOrder (s : Surroundings) : Type 0 where
  pub all_given :
      (g : FilePath × List FilePath) (m : List (FilePath × List FilePath))
      → In g m
      → In g (s.order m)
  pub only_given :
      (g : FilePath × List FilePath) (m : List (FilePath × List FilePath))
      → In g (s.order m)
      → In g m

from_paths-In :
    (s : Surroundings) (sync_root : FilePath) (event : FileEventData) (events : List FileEventData)
    → In event events
    → In (s.join sync_root event.from) (from_paths s sync_root events)
unfolding from_paths
from_paths-In s sync_root event [] h = absurd h
from_paths-In s sync_root event (x ∷ events) (inl e) =
    inl (ap (λ (v : FileEventData). s.join sync_root v.from) e)
from_paths-In s sync_root event (x ∷ events) (inr h) =
    inr (from_paths-In s sync_root event events h)

filter_by-In :
    {A : Type 0} (test : A → Bool) (a : A) (xs : List A)
    → In a xs
    → test a ≡ true
    → In a (filter_by test xs)
filter_by-In test a [] h t = absurd h
filter_by-In test a (x ∷ xs) h t =
    elim (test x)
        as (λ b.
          test x ≡ b → In a (elim b [ true ↦ x ∷ filter_by test xs | false ↦ filter_by test xs ])) [
            | true ↦ λ e. kept h (λ later. filter_by-In test a xs later t)
            | false ↦ λ e. dropped e h (λ later. filter_by-In test a xs later t)
          ]
      refl
  where
    kept : In a (x ∷ xs) → (In a xs → In a (filter_by test xs)) → In a (x ∷ filter_by test xs)
    kept (inl e) rest = inl e
    kept (inr later) rest = inr (rest later)

    dropped :
        test x ≡ false
        → In a (x ∷ xs)
        → (In a xs → In a (filter_by test xs))
        → In a (filter_by test xs)
    dropped d (inl e) rest = absurd cc
    dropped d (inr later) rest = rest later

handle_some-In :
    (handle : List FileEventData → List SyncCommand) (events : List FileEventData)
    (event : FileEventData) (c : SyncCommand)
    → In event events
    → In c (handle events)
    → In c (handle_some handle events)
unfolding handle_some
handle_some-In handle [] event c h k = absurd h
handle_some-In handle (x ∷ events) event c h k = k

-- While commands are received, no creation and no modification below a directory that is presented is
-- lost, whatever else is in the batch: for the path of the event and those that are grouped with it
-- the command of the nearest existing directory is sent.
pub handle_file_events-covers :
    (s : Surroundings) (sync_root : FilePath) (events : List FileEventData) (event : FileEventData)
    (name : String) (parent : FilePath) (n : ℕ)
    → IsOrder s
    → s.receiver ≡ true
    → In event events
    → is_create_update event ≡ true
    → s.join sync_root event.from ≡ name ∷ parent
    → IsNearest s sync_root parent n
    → (paths : List FilePath) × In (name ∷ parent) paths
      × In
          (choose (drop n parent) paths (below none parent n))
          (handle_file_events s sync_root events)
unfolding handle_file_events handle_create_update_events
handle_file_events-covers s sync_root events event name parent n order listening h kind at_path
      nearest =
    let (paths, in_groups, in_paths) =
      group_by_parent-In name parent (from_paths s sync_root (filter_by is_create_update events)) (
        subst (λ p. In p (from_paths s sync_root (filter_by is_create_update events))) at_path
          (from_paths-In s sync_root event _
            (filter_by-In is_create_update event events h kind))) in
    (
      paths,
      in_paths,
      In-append_left _
          (handle_some (handle_create_update_events s sync_root)
            (filter_by is_create_update events))
          _
          (handle_some-In (handle_create_update_events s sync_root) _ event _
            (filter_by-In is_create_update event events h kind)
            (sync_groups-In s sync_root parent paths _ _ (order.all_given _ _ in_groups) (
              (sync_last_presented_parent-IsNearest s sync_root paths listening parent _).1
                (n, nearest, refl)))),
    )

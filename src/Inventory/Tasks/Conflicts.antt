-- ===== src/Inventory/Tasks/Conflicts.antt =====
-- Which changes of the rows of the task table leave their conflicts as they are.
use cloudreve_desktop.Inventory.Tasks.History.{
  row_active, conflicts, UniqueActive, activates, reactivates,
}
use cloudreve_desktop.Prelude.Int.{ℤ}
use cloudreve_desktop.Prelude.{
  String, any, ◌≡◌, Bool, false, not, ◌&&◌, none, some, List, [], ◌∷◌, filter_by, All, any-false,
  any-snoc, refl, true, ◌++◌, map, arith, Option, if◌then◌else◌, if-rule, option_map, subst,
}
use cloudreve_desktop.Inventory.Models.{
  status_as_str, is_active, NewTaskRecord, TaskUpdate, Platform, TaskStatus,
}
use cloudreve_desktop.Inventory.Tasks.Queries.{cancel_row}
use cloudreve_desktop.Inventory.Tasks.{
  or_else, TaskChangeset, apply_changeset, new_row, same_active_task, active_statuses, has_id,
  eq_any, TaskRow,
}

-- What a change of a row leaves: its key, and its end if it has ended.
unfoldable pub Tame : {p : Platform} → (TaskRow p → TaskRow p) → TaskRow p → Type 0
Tame f row =
    (((f row).drive_id ≡ row.drive_id) × ((f row).task_type ≡ row.task_type))
    × (((f row).local_path ≡ row.local_path) × (row_active (f row) ≡ true → row_active row ≡ true))

conflicts-Tame :
    {p : Platform} (f : TaskRow p → TaskRow p) (a b : TaskRow p)
    → Tame f a
    → Tame f b
    → conflicts a b ≡ false
    → conflicts (f a) (f b) ≡ false
unfolding conflicts Tame
conflicts-Tame f a b ((d, t), (l, act)) ((d2, t2), (l2, act2)) h =
    ground (arith, d, t, l, d2, t2, l2)

any-conflicts-Tame :
    {p : Platform} (f : TaskRow p → TaskRow p) (a : TaskRow p) (rows : List (TaskRow p))
    → Tame f a
    → All (Tame f) rows
    → any (conflicts a) rows ≡ false
    → any (conflicts (f a)) (map f rows) ≡ false
any-conflicts-Tame f a [] ta tr h = refl
any-conflicts-Tame f a (row ∷ rows) ta (tr, trs) h =
    let (now, later) = any-false (conflicts a) row rows h in
    ground (arith, conflicts-Tame f a row ta tr now, any-conflicts-Tame f a rows ta trs later)

pub UniqueActive-map :
    {p : Platform} (f : TaskRow p → TaskRow p) (rows : List (TaskRow p))
    → All (Tame f) rows
    → UniqueActive rows
    → UniqueActive (map f rows)
unfolding UniqueActive
UniqueActive-map f [] tr u = tt
UniqueActive-map f (row ∷ rows) (tr, trs) (first, rest) =
    (any-conflicts-Tame f row rows tr trs first, UniqueActive-map f rows trs rest)

any-filter_by :
    {p : Platform} (q test : TaskRow p → Bool) (rows : List (TaskRow p))
    → any q rows ≡ false
    → any q (filter_by test rows) ≡ false
any-filter_by q test [] h = h
any-filter_by q test (row ∷ rows) h =
    let (now, later) = any-false q row rows h in
    ground (arith, now, any-filter_by q test rows later)

pub UniqueActive-filter_by :
    {p : Platform} (test : TaskRow p → Bool) (rows : List (TaskRow p))
    → UniqueActive rows
    → UniqueActive (filter_by test rows)
unfolding UniqueActive
UniqueActive-filter_by test [] u = u
UniqueActive-filter_by test (row ∷ rows) (first, rest) =
    let kept = filter_by test rows in
    elim (test row) as (λ t. UniqueActive (elim t [ true ↦ row ∷ kept | false ↦ kept ])) [
      | true ↦
          (any-filter_by (conflicts row) test rows first, UniqueActive-filter_by test rows rest)
      | false ↦ UniqueActive-filter_by test rows rest
    ]

pub UniqueActive-snoc :
    {p : Platform} (rows : List (TaskRow p)) (new : TaskRow p)
    → any (λ row. conflicts row new) rows ≡ false
    → UniqueActive rows
    → UniqueActive (rows ++ new ∷ [])
unfolding UniqueActive
UniqueActive-snoc [] new h u = (refl, tt)
UniqueActive-snoc (row ∷ rows) new h (first, rest) =
    let (now, later) = any-false (λ r. conflicts r new) row rows h in
    (any-snoc (conflicts row) rows new first now, UniqueActive-snoc rows new later rest)

-- The row of a new task conflicts with a row only where the query for the task finds that row.
conflicts-new :
    {p : Platform} (task : NewTaskRecord p) (state : Option String) (row : TaskRow p)
    → same_active_task p task row ≡ false
    → conflicts row (new_row p task state) ≡ false
unfolding conflicts same_active_task new_row row_active
conflicts-new task state row h = ground arith

pub any-conflicts-new :
    {p : Platform} (task : NewTaskRecord p) (state : Option String) (rows : List (TaskRow p))
    → any (same_active_task p task) rows ≡ false
    → any (λ row. conflicts row (new_row p task state)) rows ≡ false
any-conflicts-new task state [] h = refl
any-conflicts-new {p = p} task state (row ∷ rows) h =
    let (now, later) = any-false (same_active_task p task) row rows h in
    ground (arith, conflicts-new task state row now, any-conflicts-new task state rows later)

pub update_where-Tame :
    {p : Platform} (test : TaskRow p → Bool) (change : TaskRow p → TaskRow p) (row : TaskRow p)
    → (test row ≡ true → Tame change row)
    → Tame (λ r. if test r then change r else r) row
unfolding Tame
update_where-Tame test change row h =
    if-rule
      (λ (r : TaskRow _).
        (((r.drive_id ≡ row.drive_id) × (r.task_type ≡ row.task_type))
          × ((r.local_path ≡ row.local_path) × (row_active r ≡ true → row_active row ≡ true))))
      (test row) h (λ f. ((refl, refl), (refl, λ e. e)))

pub cancel_row-Tame : {p : Platform} (now : ℤ) (row : TaskRow p) → Tame (cancel_row p now) row
unfolding Tame cancel_row row_active eq_any active_statuses status_as_str
cancel_row-Tame now row = ((refl, refl), (refl, λ e. absurd cc))

active-status : (s : TaskStatus) → eq_any active_statuses (status_as_str s) ≡ is_active s
unfolding eq_any active_statuses status_as_str is_active
active-status TaskStatus.pending = refl
active-status TaskStatus.running = refl
active-status TaskStatus.completed = refl
active-status TaskStatus.failed = refl
active-status TaskStatus.cancelled = refl

or_else-active :
    (change : Option TaskStatus) (old : String)
    → (activates change && not (eq_any active_statuses old)) ≡ false
    → eq_any active_statuses (or_else (option_map status_as_str change) old) ≡ true
    → eq_any active_statuses old ≡ true
unfolding activates
or_else-active none old h e = e
or_else-active (some s) old h e = ground (arith, active-status s)

apply_changeset-Tame :
    {p : Platform} (task_id : String) (change : TaskUpdate p) (c : TaskChangeset p)
    (row : TaskRow p)
    → c.status ≡ option_map status_as_str change.status
    → reactivates task_id change row ≡ false
    → has_id p task_id row ≡ true
    → Tame (apply_changeset p c) row
unfolding Tame apply_changeset row_active reactivates
apply_changeset-Tame task_id change c row e h i = (
  (refl, refl),
  (
    refl,
    λ act.
        or_else-active change.status row.status (ground (arith, h, i))
          (subst (λ s. eq_any active_statuses (or_else s row.status) ≡ true) e act),
  ),
)

pub All-Tame :
    {p : Platform} (f : TaskRow p → TaskRow p) (rows : List (TaskRow p))
    → ((row : TaskRow p) → Tame f row)
    → All (Tame f) rows
All-Tame f [] h = tt
All-Tame f (row ∷ rows) h = (h row, All-Tame f rows h)

pub updated-Tame :
    {p : Platform} (task_id : String) (change : TaskUpdate p) (c : TaskChangeset p)
    (rows : List (TaskRow p))
    → c.status ≡ option_map status_as_str change.status
    → All (λ row. reactivates task_id change row ≡ false) rows
    → All (Tame (λ row. if has_id p task_id row then apply_changeset p c row else row)) rows
updated-Tame task_id change c [] e k = tt
updated-Tame {p = p} task_id change c (row ∷ rows) e (k, ks) = (
  update_where-Tame (has_id p task_id) (apply_changeset p c) row
      (apply_changeset-Tame task_id change c row e k),
  updated-Tame task_id change c rows e ks,
)

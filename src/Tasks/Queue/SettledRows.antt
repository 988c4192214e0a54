-- ===== src/Tasks/Queue/SettledRows.antt =====
-- inventory/db/tasks.rs: the operations on the task table leave a task settled that has ended.
use cloudreve_desktop.Prelude.Int.{ℤ}
use cloudreve_desktop.Prelude.{
  if-rule, any, any-false, String, ◌≡◌, refl, Bool, true, false, not, ◌&&◌, List, [], ◌∷◌, map,
  arith, str_eq, if◌then◌else◌, ◌>>=◌, any-snoc, ap, subst, ◌∙◌, Option, none, some, ◌++◌, eq_iff,
  Bool-cases, any-append_left, inl, inr, some_inj,
}
use cloudreve_desktop.Dict.{string_eq}
use cloudreve_desktop.Inventory.Models.{is_empty, TaskUpdate, status_as_str, Platform}
use cloudreve_desktop.Inventory.Tasks.{
  changeset_from_update, TaskChangeset, update_task, apply_changeset, eq_any, update_where, has_id,
  TaskRow,
}
use cloudreve_desktop.Inventory.Tasks.Queries.{finished_statuses, cancel_row}

pub apply_changeset-id :
    (p : Platform) (c : TaskChangeset p) (row : TaskRow p) → (apply_changeset p c row).id ≡ row.id
unfolding apply_changeset
apply_changeset-id p c row = refl

pub bool_clash : {a b : Bool} → a ≡ b → a ≡ false → b ≡ true → ⊥
bool_clash e f t = cc

module _ (p : Platform) (id : String) where
  -- The row of the task, not yet ended.
  unfoldable pub unsettled : TaskRow p → Bool
  unsettled row = has_id p id row && not (eq_any finished_statuses row.status)

  unfoldable pub RowsSettled : List (TaskRow p) → Type 0
  RowsSettled rows = (any (has_id p id) rows ≡ true) × (any unsettled rows ≡ false)

  pub map-RowsSettled :
      (f : TaskRow p → TaskRow p) (rows : List (TaskRow p))
      → ((row : TaskRow p)
          → ((f row).id ≡ row.id) × (unsettled row ≡ false → unsettled (f row) ≡ false))
      → RowsSettled rows
      → RowsSettled (map f rows)
  unfolding RowsSettled has_id
  map-RowsSettled f rows h (found, none_left) = (has rows found, ends rows none_left)
    where
      has :
          (rows : List (TaskRow p))
          → any (has_id p id) rows ≡ true
          → any (has_id p id) (map f rows) ≡ true
      has [] e = e
      has (row ∷ rows) e = ground (arith, (h row).0, has rows)

      ends :
          (rows : List (TaskRow p))
          → any unsettled rows ≡ false
          → any unsettled (map f rows) ≡ false
      ends [] e = e
      ends (row ∷ rows) e =
          let (now, later) = any-false unsettled row rows e in
          ground (arith, (h row).1 now, ends rows later)

  pub cancel_row-settled : (now : ℤ) (row : TaskRow p) → unsettled (cancel_row p now row) ≡ false
  unfolding unsettled cancel_row finished_statuses eq_any status_as_str
  cancel_row-settled now row = ground arith

  pub update_other :
      (task_id : String) (change : TaskRow p → TaskRow p) (rows : List (TaskRow p))
      → ((row : TaskRow p) → (change row).id ≡ row.id)
      → str_eq task_id id ≡ false
      → RowsSettled rows
      → RowsSettled (update_where p (has_id p task_id) change rows)
  unfolding update_where has_id unsettled
  update_other task_id change rows keeps other = map-RowsSettled _ rows (λ row.
      if-rule (λ (r : TaskRow p). (r.id ≡ row.id) × (unsettled row ≡ false → unsettled r ≡ false))
        (has_id p task_id row)
        (λ e. (
          keeps row,
          λ u.
              ground
                (arith, ap (λ s. str_eq s id) (keeps row ∙ (eq_iff row.id task_id).0 e) ∙ other),
        ))
        (λ e. (refl, λ u. u)))

  -- An update of another task's row, where serde_json succeeds or there is nothing to update.
  pub update_task-RowsSettled :
      (task_id : String) (change : TaskUpdate p) (now : ℤ) (rows after : List (TaskRow p))
      → update_task p task_id change now rows ≡ some after
      → str_eq task_id id ≡ false
      → RowsSettled rows
      → RowsSettled after
  unfolding update_task
  update_task-RowsSettled task_id change now rows after e other r = updated (is_empty p change) e
    where
      changed :
          (c : Option (TaskChangeset p))
          → (c >>= λ changeset.
              some (update_where p (has_id p task_id) (apply_changeset p changeset) rows))
            ≡ some after
          → RowsSettled after
      changed none h = absurd cc
      changed (some c) h =
          subst RowsSettled (some_inj.0 h)
            (update_other task_id _ rows (apply_changeset-id p c) other r)

      updated :
          (b : Bool)
          → (if b
              then some rows
              else (changeset_from_update p change now >>= λ changeset.
                  some (update_where p (has_id p task_id) (apply_changeset p changeset) rows)))
            ≡ some after
          → RowsSettled after
      updated true h = subst RowsSettled (some_inj.0 h) r
      updated false h = changed (changeset_from_update p change now) h

  pub insert-RowsSettled :
      (new : TaskRow p) (rows : List (TaskRow p))
      → any (has_id p new.id) rows ≡ false
      → RowsSettled rows
      → RowsSettled (rows ++ new ∷ [])
  unfolding RowsSettled unsettled has_id
  insert-RowsSettled new rows free (found, none_left) = (
    any-append_left (has_id p id) rows (new ∷ []) found,
    any-snoc unsettled rows new none_left elim (Bool-cases (str_eq new.id id)) [
      | inl e ↦
          absurd (bool_clash (ap (λ s. any (has_id p s) rows) ((eq_iff new.id id).0 e)) free found)
      | inr e ↦ ground (arith, e)
    ],
  )

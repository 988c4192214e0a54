-- ===== src/Tasks/Queue/Settled.antt =====
-- tasks/queue.rs: a task that has ended, or was cancelled before its status was checked, stays ended
-- and is not run.
use cloudreve_desktop.Tasks.Queue.Operations.{
  forget_handle, lower_inflight, release, cleanup_task_entry, register_progress_entry,
  register_path, check_status,
}
use cloudreve_desktop.Tasks.Queue.Quiet.{Everywhere}
use cloudreve_desktop.Prelude.{
  if-rule, any-false, String, ◌≡◌, refl, Bool, true, false, ◌&&◌, List, [], ◌∷◌, arith, str_eq,
  subst, some, ◌++◌, eq_iff, Bool-cases, ◌⊎◌, inl, inr, some_inj, get_elem?, set, ℕ, zero, suc, sym,
}
use cloudreve_desktop.Dict.{string_eq}
use cloudreve_desktop.Inventory.Models.{is_active, status_from_str, status_as_str, Platform}
use cloudreve_desktop.Inventory.Tasks.{get_task_status, eq_any, has_id, TaskRow}
use cloudreve_desktop.Inventory.Tasks.Queries.{finished_statuses}
use cloudreve_desktop.Tasks.Queue.State.{TaskQueue, Phase, QueuedTask, Worker}
use cloudreve_desktop.Tasks.Queue.Step.{Work}
use cloudreve_desktop.Tasks.Queue.SettledRows.{unsettled, RowsSettled, update_task-RowsSettled}

-- `execute_task` is past its check of the status and has not returned.
unfoldable pub busy : Phase → Bool
busy Phase.spawned = false
busy Phase.checked = true
busy Phase.marked = true
busy Phase.pathed = true
busy Phase.running = true
busy (Phase.finishing result) = true
busy Phase.cleaning = true
busy Phase.ended = false
busy Phase.released = false
busy Phase.counted = false
busy Phase.gone = false
busy Phase.dropped = false

finished-cases :
    (s : String)
    → eq_any finished_statuses s ≡ true
    → (s ≡ "completed") ⊎ ((s ≡ "failed") ⊎ (s ≡ "cancelled"))
unfolding eq_any finished_statuses status_as_str
finished-cases s e = ground (arith, eq_iff "completed" s, eq_iff "failed" s, eq_iff "cancelled" s)

-- A final status ends `execute_task` at its check.
check_status-final :
    (p : Platform) (status : String)
    → eq_any finished_statuses status ≡ true
    → busy (check_status p (status_from_str status)) ≡ false
unfolding busy check_status status_from_str is_active
check_status-final p status e = elim (finished-cases status e) [
  | inl c ↦ rw c refl
  | inr (inl c) ↦ rw c refl
  | inr (inr c) ↦ rw c refl
]

module _ (p : Platform) (id : String) where
  unfoldable pub IsIdle : QueuedTask p → Phase → Type 0
  IsIdle task phase = (str_eq task.task_id id && busy phase) ≡ false

  -- The task has a row with a final status, and none of the spawned tasks runs it.
  unfoldable pub Settled : TaskQueue p → Type 0
  Settled q = RowsSettled p id q.rows × Everywhere p IsIdle q.workers

  get_task_status-settled :
      (rows : List (TaskRow p))
      → RowsSettled p id rows
      → busy (check_status p (get_task_status p id rows)) ≡ false
  unfolding RowsSettled get_task_status unsettled
  get_task_status-settled [] (found, none_left) = absurd cc
  get_task_status-settled (row ∷ rows) (found, none_left) =
      let (now, later) = any-false (unsettled p id) row rows none_left in
      if-rule (λ o. busy (check_status p o) ≡ false) (has_id p id row)
        (λ e. check_status-final p row.status (ground (arith, e, now)))
        (λ e. get_task_status-settled rows (ground (arith, e, found), later))

  IsIdle-other :
      (task : QueuedTask p) (phase : Phase) → str_eq task.task_id id ≡ false → IsIdle task phase
  unfolding IsIdle
  IsIdle-other task phase e = ground (arith, e)

  pub not_busy : (task : QueuedTask p) (phase : Phase) → busy phase ≡ false → IsIdle task phase
  unfolding IsIdle
  not_busy task phase e = ground (arith, e)

  -- A busy task that is idle for `id` is another one.
  busy_other :
      (task : QueuedTask p) (phase : Phase)
      → busy phase ≡ true
      → IsIdle task phase
      → str_eq task.task_id id ≡ false
  unfolding IsIdle
  busy_other task phase b e = ground (arith, e, b)

  begins-IsIdle :
      (task : QueuedTask p) (rows : List (TaskRow p))
      → RowsSettled p id rows
      → IsIdle task (check_status p (get_task_status p task.task_id rows))
  begins-IsIdle task rows r = elim (Bool-cases (str_eq task.task_id id)) [
    | inl e ↦ not_busy task _ (
        subst (λ s. busy (check_status p (get_task_status p s rows)) ≡ false)
          (sym ((eq_iff task.task_id id).0 e)) (get_task_status-settled rows r))
    | inr e ↦ IsIdle-other task _ e
  ]

  pub Work-Settled :
      {q : TaskQueue p} {task : QueuedTask p} {before phase : Phase} {aborted : Bool}
      {after : TaskQueue p}
      → Work p false q task before aborted phase after
      → IsIdle task before
      → RowsSettled p id q.rows
      → (IsIdle task phase × RowsSettled p id after.rows) × (after.workers ≡ q.workers)
  unfolding register_path register_progress_entry cleanup_task_entry release lower_inflight
      forget_handle busy
  Work-Settled {q = q} {task = task} Work.begins i r = ((begins-IsIdle task q.rows r, r), refl)
  Work-Settled (Work.begins_unchecked f) i r = absurd cc
  Work-Settled {q = q} {task = task} (Work.marks now rows e) i r =
      let other = busy_other task Phase.checked refl i in
      (
        (
          IsIdle-other task _ other,
          update_task-RowsSettled p id task.task_id _ now q.rows rows e other r,
        ),
        refl,
      )
  Work-Settled (Work.mark_fails f) i r = absurd cc
  Work-Settled {task = task} Work.registers_path i r =
      ((IsIdle-other task _ (busy_other task Phase.marked refl i), r), refl)
  Work-Settled {task = task} Work.registers_progress i r =
      ((IsIdle-other task _ (busy_other task Phase.pathed refl i), r), refl)
  Work-Settled {task = task} (Work.returns result) i r =
      ((IsIdle-other task _ (busy_other task Phase.running refl i), r), refl)
  Work-Settled {q = q} {task = task} (Work.records {result = result} now rows e) i r =
      let other = busy_other task (Phase.finishing result) refl i in
      (
        (
          IsIdle-other task _ other,
          update_task-RowsSettled p id task.task_id _ now q.rows rows e other r,
        ),
        refl,
      )
  Work-Settled (Work.record_fails f) i r = absurd cc
  Work-Settled {task = task} Work.cleans i r = ((not_busy task _ refl, r), refl)
  Work-Settled {task = task} Work.releases i r = ((not_busy task _ refl, r), refl)
  Work-Settled {task = task} Work.counts i r = ((not_busy task _ refl, r), refl)
  Work-Settled {task = task} Work.forgets i r = ((not_busy task _ refl, r), refl)
  Work-Settled {task = task} Work.drops_spawned i r = ((not_busy task _ refl, r), refl)
  Work-Settled {task = task} Work.drops_running i r = ((not_busy task _ refl, r), refl)

  pub Everywhere-get :
      (ws : List (Worker p)) (i : ℕ) (w : Worker p)
      → get_elem? ws i ≡ some w
      → Everywhere p IsIdle ws
      → IsIdle w.task w.phase
  unfolding Everywhere
  Everywhere-get [] i w e a = absurd cc
  Everywhere-get (v ∷ ws) zero w e (a, rest) =
      subst (λ (u : Worker p). IsIdle u.task u.phase) (some_inj.0 e) a
  Everywhere-get (v ∷ ws) (suc i) w e (a, rest) = Everywhere-get ws i w e rest

  pub Everywhere-set :
      (ws : List (Worker p)) (i : ℕ) (w : Worker p)
      → IsIdle w.task w.phase
      → Everywhere p IsIdle ws
      → Everywhere p IsIdle (set ws i w)
  unfolding Everywhere
  Everywhere-set [] i w h a = tt
  Everywhere-set (v ∷ ws) zero w h (a, rest) = (h, rest)
  Everywhere-set (v ∷ ws) (suc i) w h (a, rest) = (a, Everywhere-set ws i w h rest)

  pub Everywhere-snoc :
      (ws : List (Worker p)) (w : Worker p)
      → IsIdle w.task w.phase
      → Everywhere p IsIdle ws
      → Everywhere p IsIdle (ws ++ w ∷ [])
  unfolding Everywhere
  Everywhere-snoc [] w h a = (h, tt)
  Everywhere-snoc (v ∷ ws) w h (a, rest) = (a, Everywhere-snoc ws w h rest)

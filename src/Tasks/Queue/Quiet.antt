-- ===== src/Tasks/Queue/Quiet.antt =====
-- tasks/queue.rs: the operations that leave the table and the tasks' phases alone.
use cloudreve_desktop.Tasks.Types.{TaskProgress}
use cloudreve_desktop.Inventory.Tasks.{or_else}
use cloudreve_desktop.Tasks.Queue.Operations.{
  abort_dispatcher, cancel_running_tasks, shutdown, is_stopped, abort_task, set_aborted, send,
  abort_tasks, abort_handle,
}
use cloudreve_desktop.Prelude.{
  if-rule, All, ℕ, zero, suc, String, ◌≡◌, refl, ◌∙◌, true, Option, none, some, List, [], ◌∷◌, map,
}
use cloudreve_desktop.Dict.{string_eq, lookup}
use cloudreve_desktop.Inventory.Models.{Platform}
use cloudreve_desktop.Tasks.Queue.State.{TaskQueue, QueueCommand, Phase, QueuedTask, Worker}

module _ (p : Platform) where
  unfoldable pub Everywhere : (QueuedTask p → Phase → Type 0) → List (Worker p) → Type 0
  Everywhere P ws = All (λ (w : Worker p). P w.task w.phase) ws

  pub record Quiet (q r : TaskQueue p) : Type 1 where
    pub rows : r.rows ≡ q.rows
    pub workers :
        (P : QueuedTask p → Phase → Type 0) → Everywhere P q.workers → Everywhere P r.workers

  Quiet-refl : (q : TaskQueue p) → Quiet q q
  Quiet-refl q = record { rows = refl; workers = λ P a. a }

  pub Quiet-trans : {q r s : TaskQueue p} → Quiet q r → Quiet r s → Quiet q s
  Quiet-trans a b = record { rows = b.rows ∙ a.rows; workers = λ P e. b.workers P (a.workers P e) }

  send-Quiet : (command : QueueCommand p) (q : TaskQueue p) → Quiet q (or_else (send p command q) q)
  unfolding send
  send-Quiet command q =
      if-rule (λ o. Quiet q (or_else o q)) (is_stopped p q.dispatcher) (λ closed. Quiet-refl q)
        (λ opened. record { rows = refl; workers = λ P a. a })

  set_aborted-Everywhere :
      (P : QueuedTask p → Phase → Type 0) (n : ℕ) (ws : List (Worker p))
      → Everywhere P ws
      → Everywhere P (set_aborted p n ws)
  unfolding Everywhere set_aborted
  set_aborted-Everywhere P n [] a = tt
  set_aborted-Everywhere P zero (w ∷ ws) a = a
  set_aborted-Everywhere P (suc n) (w ∷ ws) (a, rest) = (a, set_aborted-Everywhere P n ws rest)

  abort_handle-Everywhere :
      (P : QueuedTask p → Phase → Type 0) (handle : Option ℕ) (ws : List (Worker p))
      → Everywhere P ws
      → Everywhere P (abort_handle p handle ws)
  unfolding abort_handle
  abort_handle-Everywhere P none ws a = a
  abort_handle-Everywhere P (some n) ws a = set_aborted-Everywhere P n ws a

  pub abort_tasks-Quiet :
      (task_ids : List String) (q : TaskQueue p) → Quiet q (abort_tasks p task_ids q)
  unfolding abort_tasks abort_task
  abort_tasks-Quiet [] q = Quiet-refl q
  abort_tasks-Quiet (task_id ∷ task_ids) q =
      Quiet-trans {r = abort_task p task_id q}
        (record {
          rows = refl;
          workers = λ P. abort_handle-Everywhere P (lookup task_id q.task_handles) q.workers;
        })
        (abort_tasks-Quiet task_ids (abort_task p task_id q))

  pub shutdown-Quiet : (q : TaskQueue p) → Quiet q (shutdown p q)
  unfolding shutdown cancel_running_tasks
  shutdown-Quiet q =
      if-rule (Quiet q) q.shutting_down (λ down. Quiet-refl q)
        (λ up.
          let flagged : TaskQueue p = record q { shutting_down = true } in
          let sent = or_else (send p QueueCommand.shutdown flagged) flagged in
          let halted : TaskQueue p = record sent {
            dispatcher = abort_dispatcher p sent.dispatcher;
          } in
          let a = send-Quiet QueueCommand.shutdown flagged in
          let b =
            abort_tasks-Quiet (map (λ (e : String × TaskProgress p). e.0) halted.progress) halted in
          record { rows = b.rows ∙ a.rows; workers = λ P e. b.workers P (a.workers P e) })

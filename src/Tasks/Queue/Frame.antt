-- ===== src/Tasks/Queue/Frame.antt =====
-- tasks/queue.rs: sums over the spawned tasks, and the operations that leave the permits, `inflight`
-- and the phases alone.
use cloudreve_desktop.Tasks.Queue.{payload_from_record}
use cloudreve_desktop.Tasks.Types.{TaskProgress, TaskPayload}
use cloudreve_desktop.Dict.{lookup, string_eq}
use cloudreve_desktop.Inventory.Tasks.{TaskRow, or_else}
use cloudreve_desktop.Tasks.Queue.Operations.{
  reset_status, abort_dispatcher, resume_task, cancel_running_tasks, shutdown, resume_tasks,
  resume_reset, enqueue, is_stopped, dispatch_task, abort_handle, set_aborted, send, persisted,
  dispatched, abort_tasks, abort_task,
}
use cloudreve_desktop.Prelude.Int.{ℤ}
use cloudreve_desktop.Prelude.{
  if-rule, get_elem?, set, ℕ, zero, suc, ◌+◌, String, ◌≡◌, refl, ap, ◌∙◌, ◌⊎◌, Bool, true, false,
  Option, none, some, List, [], ◌∷◌, ◌++◌, arith, ◌>>=◌, map, some_inj,
}
use cloudreve_desktop.Inventory.Models.{TaskRecord, Platform}
use cloudreve_desktop.Tasks.Queue.State.{Refusal, TaskQueue, QueueCommand, Phase, Worker}

module _ (p : Platform) where
  unfoldable pub sum_by : (Phase → ℕ) → List (Worker p) → ℕ
  sum_by weight [] = 0
  sum_by weight (w ∷ ws) = weight w.phase + sum_by weight ws

  pub sum_by-snoc :
      (weight : Phase → ℕ) (ws : List (Worker p)) (w : Worker p)
      → sum_by weight (ws ++ w ∷ []) ≡ sum_by weight ws + weight w.phase
  unfolding sum_by
  sum_by-snoc weight [] w = omega arith
  sum_by-snoc weight (v ∷ ws) w = omega (arith, sum_by-snoc weight ws w)

  pub sum_by-set :
      (weight : Phase → ℕ) (ws : List (Worker p)) (i : ℕ) (w v : Worker p)
      → get_elem? ws i ≡ some w
      → sum_by weight (set ws i v) + weight w.phase ≡ sum_by weight ws + weight v.phase
  unfolding sum_by
  sum_by-set weight [] i w v e = absurd cc
  sum_by-set weight (u ∷ ws) zero w v e =
      let same = ap (λ (x : Worker p). weight x.phase) (some_inj.0 e) in omega (arith, same)
  sum_by-set weight (u ∷ ws) (suc i) w v e = omega (arith, sum_by-set weight ws i w v e)

  sum_by-set_aborted :
      (weight : Phase → ℕ) (n : ℕ) (ws : List (Worker p))
      → sum_by weight (set_aborted p n ws) ≡ sum_by weight ws
  unfolding sum_by set_aborted
  sum_by-set_aborted weight n [] = refl
  sum_by-set_aborted weight zero (w ∷ ws) = refl
  sum_by-set_aborted weight (suc n) (w ∷ ws) = omega (arith, sum_by-set_aborted weight n ws)

  -- The numbers that count permits, and every sum over the phases, are the same.
  pub record Same (q r : TaskQueue p) : Type 0 where
    pub permits : r.permits ≡ q.permits
    pub inflight : r.inflight ≡ q.inflight
    pub sums : (weight : Phase → ℕ) → sum_by weight r.workers ≡ sum_by weight q.workers

  pub Same-refl : (q : TaskQueue p) → Same q q
  Same-refl q = record { permits = refl; inflight = refl; sums = λ weight. refl }

  pub Same-trans : {q r s : TaskQueue p} → Same q r → Same r s → Same q s
  Same-trans a b = record {
    permits = b.permits ∙ a.permits;
    inflight = b.inflight ∙ a.inflight;
    sums = λ weight. b.sums weight ∙ a.sums weight;
  }

  send-Same :
      (command : QueueCommand p) (q r : TaskQueue p)
      → Same q r
      → Same q (or_else (send p command r) r)
  unfolding send
  send-Same command q r s =
      if-rule (λ o. Same q (or_else o r)) (is_stopped p r.dispatcher) (λ closed. s)
        (λ open_. Same-trans s (record { permits = refl; inflight = refl; sums = λ weight. refl }))

  pub dispatched-Same :
      (task_id : String) (q r : TaskQueue p) (sent : Option (TaskQueue p))
      → Same q r
      → Same q (or_else sent r)
      → Same q (dispatched p task_id r sent).1
  unfolding dispatched
  dispatched-Same task_id q r none s t = s
  dispatched-Same task_id q r (some sent) s t = t

  pub persisted-Same :
      (task_id : String) (payload : TaskPayload p) (q : TaskQueue p)
      (o : Option (Bool × List (TaskRow p)))
      → Same q (persisted p task_id payload q o).1
  unfolding persisted dispatch_task
  persisted-Same task_id payload q none = Same-refl q
  persisted-Same task_id payload q (some (false, rows)) = Same-refl q
  persisted-Same task_id payload q (some (true, rows)) =
      let stored : Same q (record q { rows = rows }) = record {
        permits = refl;
        inflight = refl;
        sums = λ weight. refl;
      } in
      dispatched-Same task_id q _ _ stored (send-Same _ q _ stored)

  pub enqueue-Same :
      (payload : TaskPayload p) (fresh : String) (now : ℤ) (q : TaskQueue p)
      → Same q (enqueue p payload fresh now q).1
  unfolding enqueue
  enqueue-Same payload fresh now q =
      if-rule (λ (r : (Refusal ⊎ String) × TaskQueue p). Same q r.1) q.shutting_down
        (λ down. Same-refl q) (λ up. persisted-Same _ payload q _)

  abort_task-Same : (task_id : String) (q : TaskQueue p) → Same q (abort_task p task_id q)
  unfolding abort_task abort_handle
  abort_task-Same task_id q = record {
    permits = refl;
    inflight = refl;
    sums = λ weight. sums weight (lookup task_id q.task_handles);
  }
    where
      sums :
          (weight : Phase → ℕ) (handle : Option ℕ)
          → sum_by weight (abort_handle p handle q.workers) ≡ sum_by weight q.workers
      sums weight none = refl
      sums weight (some n) = sum_by-set_aborted weight n q.workers

  pub abort_tasks-Same :
      (task_ids : List String) (q : TaskQueue p) → Same q (abort_tasks p task_ids q)
  unfolding abort_tasks
  abort_tasks-Same [] q = Same-refl q
  abort_tasks-Same (task_id ∷ task_ids) q =
      Same-trans (abort_task-Same task_id q) (abort_tasks-Same task_ids (abort_task p task_id q))

  pub shutdown-Same : (q : TaskQueue p) → Same q (shutdown p q)
  unfolding shutdown cancel_running_tasks
  shutdown-Same q =
      if-rule (Same q) q.shutting_down (λ down. Same-refl q)
        (λ up.
          let flagged : TaskQueue p = record q { shutting_down = true } in
          let marked : Same q flagged = record {
            permits = refl;
            inflight = refl;
            sums = λ weight. refl;
          } in
          let sent = or_else (send p QueueCommand.shutdown flagged) flagged in
          let halted : TaskQueue p = record sent {
            dispatcher = abort_dispatcher p sent.dispatcher;
          } in
          let halting : Same sent halted = record {
            permits = refl;
            inflight = refl;
            sums = λ weight. refl;
          } in
          let aborted =
            abort_tasks-Same (map (λ (e : String × TaskProgress p). e.0) halted.progress) halted in
          let kept =
            Same-trans (send-Same QueueCommand.shutdown q flagged marked)
              (Same-trans halting aborted) in
          record { permits = kept.permits; inflight = kept.inflight; sums = kept.sums })

  resume_reset-Same :
      (r : TaskRecord p) (q : TaskQueue p) (reset : Option (List (TaskRow p)))
      → Same q (resume_reset p r q reset)
  unfolding resume_reset dispatch_task
  resume_reset-Same r q none = Same-refl q
  resume_reset-Same r q (some rows) = resumed (payload_from_record p r)
    where
      stored : Same q (record q { rows = rows })
      stored = record { permits = refl; inflight = refl; sums = λ weight. refl }

      resumed :
          (payload : Option (TaskPayload p))
          → Same q (
              or_else
                (payload >>= λ t. dispatch_task p r.id t (record q { rows = rows }))
                (record q { rows = rows }))
      resumed none = stored
      resumed (some t) = send-Same _ q _ stored

  pub resume_tasks-Same :
      (records : List (TaskRecord p)) (now : ℤ) (q : TaskQueue p)
      → Same q (resume_tasks p records now q)
  unfolding resume_tasks resume_task
  resume_tasks-Same [] now q = Same-refl q
  resume_tasks-Same (r ∷ records) now q =
      Same-trans (resume_reset-Same r q (reset_status p r now q)) (resume_tasks-Same records now _)

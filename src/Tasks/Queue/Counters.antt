-- ===== src/Tasks/Queue/Counters.antt =====
-- tasks/queue.rs: the semaphore bounds the tasks that run, and `inflight` counts the spawned ones.
use cloudreve_desktop.Inventory.Tasks.{or_else, TaskRow}
use cloudreve_desktop.Prelude.Int.{ℤ}
use cloudreve_desktop.Tasks.Queue.Operations.{
  resume_tasks, abort_path, resume_incomplete_tasks, cancel_rows, receive, launch, insert_handle,
  forget_handle, lower_inflight, release, cleanup_task_entry, register_progress_entry,
  register_path, check_status,
}
use cloudreve_desktop.Tasks.Queue.Frame.{
  resume_tasks-Same, shutdown-Same, abort_tasks-Same, enqueue-Same, sum_by-snoc, sum_by-set, sum_by,
  Same,
}
use cloudreve_desktop.Prelude.{
  u64_mod, sub_u64, ℕ, ◌+◌, ◌%◌, ◌≡◌, refl, sym, ap, ◌∙◌, ◌⊎◌, inl, inr, Bool, Option, none, some,
  arith, get_elem?, ◌>>=◌, set, ◌<◌, String, false, List, [], ◌∷◌, ◌++◌, max,
}
use cloudreve_desktop.Inventory.Models.{TaskRecord, TaskStatus, is_active, Platform}
use cloudreve_desktop.Inventory.Tasks.Queries.{Like}
use cloudreve_desktop.Tasks.Queue.State.{new, TaskQueue, QueueCommand, Phase, QueuedTask, Worker}
use cloudreve_desktop.Tasks.Queue.Step.{started, set_phase, Work, Step, Reach}

-- 1 in the phases in which a task has a permit.
unfoldable pub holds : Phase → ℕ
holds Phase.spawned = 1
holds Phase.checked = 1
holds Phase.marked = 1
holds Phase.pathed = 1
holds Phase.running = 1
holds (Phase.finishing result) = 1
holds Phase.cleaning = 1
holds Phase.ended = 1
holds Phase.released = 0
holds Phase.counted = 0
holds Phase.gone = 0
holds Phase.dropped = 0

-- 1 until a task has lowered `inflight`, which a dropped one never does.
unfoldable pub uncounted : Phase → ℕ
uncounted Phase.spawned = 1
uncounted Phase.checked = 1
uncounted Phase.marked = 1
uncounted Phase.pathed = 1
uncounted Phase.running = 1
uncounted (Phase.finishing result) = 1
uncounted Phase.cleaning = 1
uncounted Phase.ended = 1
uncounted Phase.released = 1
uncounted Phase.counted = 0
uncounted Phase.gone = 0
uncounted Phase.dropped = 1

check_status-weights :
    (p : Platform) (o : Option TaskStatus)
    → (holds (check_status p o) ≡ 1) × (uncounted (check_status p o) ≡ 1)
unfolding check_status holds uncounted is_active
check_status-weights p none = (refl, refl)
check_status-weights p (some TaskStatus.pending) = (refl, refl)
check_status-weights p (some TaskStatus.running) = (refl, refl)
check_status-weights p (some TaskStatus.completed) = (refl, refl)
check_status-weights p (some TaskStatus.failed) = (refl, refl)
check_status-weights p (some TaskStatus.cancelled) = (refl, refl)

lowered : (n m : ℕ) → n ≡ m + 1 → sub_u64 (n % u64_mod) 1 ≡ m % u64_mod
lowered n m e = omega arith

raised : (n m : ℕ) → m ≡ n + 1 → (n % u64_mod + 1) % u64_mod ≡ m % u64_mod
raised n m e = omega arith

module _ (p : Platform) (limit : ℕ) where
  unfoldable pub Balanced : TaskQueue p → Type 0
  Balanced q =
      (q.permits + sum_by p holds q.workers ≡ limit)
      × (q.inflight ≡ sum_by p uncounted q.workers % u64_mod)

  Balanced-Same : {q r : TaskQueue p} → Same p q r → Balanced q → Balanced r
  unfolding Balanced
  Balanced-Same s (b, c) = (
    omega (arith, s.permits, s.sums holds, b),
    s.inflight ∙ c ∙ ap (λ n. n % u64_mod) (sym (s.sums uncounted)),
  )

  -- What a step of a task does to the counts and to its own weights.
  record Moved (q : TaskQueue p) (before : Phase) (phase : Phase) (after : TaskQueue p)
      : Type 0 where
    workers : after.workers ≡ q.workers
    permits : after.permits + holds phase ≡ q.permits + holds before
    inflight :
        ((after.inflight ≡ q.inflight) × (uncounted phase ≡ uncounted before))
        ⊎ ((after.inflight ≡ sub_u64 q.inflight 1)
            × ((uncounted phase ≡ 0) × (uncounted before ≡ 1)))

  -- A step of which the task keeps its weights and the queue its counts.
  unmoved :
      {q after : TaskQueue p} {before phase : Phase}
      → after.workers ≡ q.workers
      → after.permits ≡ q.permits
      → after.inflight ≡ q.inflight
      → (holds phase ≡ holds before) × (uncounted phase ≡ uncounted before)
      → Moved q before phase after
  unmoved w e f (h, u) = record {
    workers = w;
    permits = omega (arith, e, h);
    inflight = inl (f, u);
  }

  Work-Moved :
      {faults : Bool} {q : TaskQueue p} {task : QueuedTask p} {before phase : Phase}
      {aborted : Bool} {after : TaskQueue p}
      → Work p faults q task before aborted phase after
      → Moved q before phase after
  unfolding register_path register_progress_entry cleanup_task_entry release lower_inflight
      forget_handle holds uncounted
  Work-Moved Work.begins = unmoved refl refl refl (check_status-weights p _)
  Work-Moved (Work.begins_unchecked f) = unmoved refl refl refl (refl, refl)
  Work-Moved (Work.marks now rows e) = unmoved refl refl refl (refl, refl)
  Work-Moved (Work.mark_fails f) = unmoved refl refl refl (refl, refl)
  Work-Moved Work.registers_path = unmoved refl refl refl (refl, refl)
  Work-Moved Work.registers_progress = unmoved refl refl refl (refl, refl)
  Work-Moved (Work.returns result) = unmoved refl refl refl (refl, refl)
  Work-Moved (Work.records now rows e) = unmoved refl refl refl (refl, refl)
  Work-Moved (Work.record_fails f) = unmoved refl refl refl (refl, refl)
  Work-Moved Work.cleans = unmoved refl refl refl (refl, refl)
  Work-Moved Work.releases = record {
    workers = refl;
    permits = omega arith;
    inflight = inl (refl, refl);
  }
  Work-Moved Work.counts = record {
    workers = refl;
    permits = refl;
    inflight = inr (refl, (refl, refl));
  }
  Work-Moved Work.forgets = unmoved refl refl refl (refl, refl)
  Work-Moved Work.drops_spawned = record {
    workers = refl;
    permits = omega arith;
    inflight = inl (refl, refl);
  }
  Work-Moved Work.drops_running = record {
    workers = refl;
    permits = omega arith;
    inflight = inl (refl, refl);
  }

  set_sum :
      (weight : Phase → ℕ) (ws after : List (Worker p)) (i : ℕ) (w : Worker p) (phase : Phase)
      → after ≡ ws
      → get_elem? ws i ≡ some w
      → sum_by p weight (set after i (record w { phase = phase })) + weight w.phase
        ≡ sum_by p weight ws + weight phase
  set_sum weight ws after i w phase s e = omega (
    arith,
    sum_by-set p weight after i w (record w { phase = phase }) (ap (λ l. get_elem? l i) s ∙ e),
    ap (sum_by p weight) s,
  )

  works-Balanced :
      (q : TaskQueue p) (i : ℕ) (w : Worker p) (phase : Phase) (after : TaskQueue p)
      → get_elem? q.workers i ≡ some w
      → Moved q w.phase phase after
      → Balanced q
      → Balanced (set_phase p i w phase after)
  unfolding Balanced set_phase
  works-Balanced q i w phase after e m (b, c) =
      let h = set_sum holds q.workers after.workers i w phase m.workers e in
      let u = set_sum uncounted q.workers after.workers i w phase m.workers e in
      (
        omega (arith, h, m.permits, b),
        elim m.inflight [
          | inl (f, same) ↦ f ∙ c ∙ ap (λ n. n % u64_mod) (omega (arith, u, same))
          | inr (f, (zero_after, one_before)) ↦
              f ∙ ap (λ n. sub_u64 n 1) c ∙ lowered _ _ (omega (arith, u, zero_after, one_before))
        ],
      )

  launch-Balanced :
      (task : QueuedTask p) (q : TaskQueue p)
      → 0 < q.permits
      → Balanced q
      → Balanced (launch p task q)
  unfolding Balanced launch holds uncounted
  launch-Balanced task q h (b, c) =
      let new : Worker p = record { task = task; phase = Phase.spawned; aborted = false } in
      let held : sum_by p holds (q.workers ++ new ∷ []) ≡ sum_by p holds q.workers + 1 =
        sum_by-snoc p holds q.workers new in
      let more : sum_by p uncounted (q.workers ++ new ∷ []) ≡ sum_by p uncounted q.workers + 1 =
        sum_by-snoc p uncounted q.workers new in
      (omega (arith, h, b, held), ap (λ n. (n + 1) % u64_mod) c ∙ raised _ _ more)

  receive-Balanced :
      (command : QueueCommand p) (q : TaskQueue p) → Balanced q → Balanced (receive p command q)
  unfolding receive Balanced
  receive-Balanced (QueueCommand.enqueue task) q b = b
  receive-Balanced QueueCommand.shutdown q b = b

  Step-Balanced :
      {like : Like} {faults : Bool} {q r : TaskQueue p}
      → Step p like faults q r
      → Balanced q
      → Balanced r
  unfolding insert_handle cancel_rows abort_path Balanced
  Step-Balanced {q = q} (Step.enqueues payload fresh now) b =
      Balanced-Same (enqueue-Same p payload fresh now q) b
  Step-Balanced (Step.receives command commands e idle) b = receive-Balanced command _ b
  Step-Balanced {q = q} (Step.launches task e h) b = launch-Balanced task q h b
  Step-Balanced (Step.inserts task_id n e) b = b
  Step-Balanced (Step.inserts_last task_id n e) b = b
  Step-Balanced {q = q} (Step.works i w {phase = phase} {after = after} e work) b =
      works-Balanced q i w phase after e (Work-Moved work) b
  Step-Balanced (Step.cancels path now) b = b
  Step-Balanced (Step.aborts path before after e) b = Balanced-Same (abort_tasks-Same p _ _) b
  Step-Balanced {q = q} Step.shuts_down b = Balanced-Same (shutdown-Same p q) b

  Reach-Balanced :
      {like : Like} {faults : Bool} {q r : TaskQueue p}
      → Reach p like faults q r
      → Balanced q
      → Balanced r
  Reach-Balanced Reach.here b = b
  Reach-Balanced (Reach.next path step) b = Step-Balanced step (Reach-Balanced path b)

module _ (p : Platform) (drive_id : String) (max_concurrent : ℕ) (rows : List (TaskRow p))
    (now : ℤ) where
  fresh-Balanced : Balanced p (max max_concurrent 1) (new p drive_id max_concurrent rows)
  unfolding Balanced new sum_by
  fresh-Balanced = (omega arith, refl)

  started-Balanced : Balanced p (max max_concurrent 1) (started p drive_id max_concurrent rows now)
  unfolding started resume_incomplete_tasks
  started-Balanced = resumed_or_not _
    where
      resumed_or_not :
          (records : Option (List (TaskRecord p)))
          → Balanced p (max max_concurrent 1) (
              or_else
                (records >>= λ rs.
                  some (resume_tasks p rs now (new p drive_id max_concurrent rows)))
                (new p drive_id max_concurrent rows))
      resumed_or_not none = fresh-Balanced
      resumed_or_not (some rs) =
          Balanced-Same p (max max_concurrent 1) (resume_tasks-Same p rs now _) fresh-Balanced

  -- However callers, dispatcher and tasks interleave, and whether or not calls of the database fail,
  -- the tasks that have a permit and the free permits are max(max_concurrent, 1) together: no more
  -- tasks run at once.
  pub permits_bound :
      {like : Like} {faults : Bool} {q : TaskQueue p}
      → Reach p like faults (started p drive_id max_concurrent rows now) q
      → q.permits + sum_by p holds q.workers ≡ max max_concurrent 1
  unfolding Balanced
  permits_bound path = (Reach-Balanced p (max max_concurrent 1) path started-Balanced).0

  -- However callers, dispatcher and tasks interleave, `inflight` is the number, modulo 2 ^ 64, of the
  -- spawned tasks that have not lowered it; a task that an abort has dropped is one of them for good.
  pub inflight_exact :
      {like : Like} {faults : Bool} {q : TaskQueue p}
      → Reach p like faults (started p drive_id max_concurrent rows now) q
      → q.inflight ≡ sum_by p uncounted q.workers % u64_mod
  unfolding Balanced
  inflight_exact path = (Reach-Balanced p (max max_concurrent 1) path started-Balanced).1

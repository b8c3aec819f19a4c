-- ===== src/Worker/Cancel.antt =====
-- src/async_task_worker/core.py: `cancel_task` of `AsyncTaskWorker`, and its race with the start of
-- the task.
use async_task_worker.Base.{
  ℕ, String, ◌≡◌, refl, Bool, true, false, Option, none, some, arith, if◌then◌else◌, Option-cases,
  inl, inr, ◌∙◌,
}
use async_task_worker.Base.Dict
use async_task_worker.Base.Dict.{Dict, contains}
use async_task_worker.Status.{
  pending, completed, cancelled, TaskInfo, is_terminal_state, mark_started, mark_completed,
  mark_cancelled,
}
use async_task_worker.Queue
use async_task_worker.Queue.Live.{without}
use async_task_worker.Queue.Invariant
use async_task_worker.Queue.Invariant.{IsValid}
use async_task_worker.Queue.Refinement.{remove_task_refines}
use async_task_worker.Futures
use async_task_worker.Futures.{
  Failure, task_error, Future, open_future, raised, resolved, Manager, at, find_open,
}
use async_task_worker.Futures.Store.{at-write, find_open-some}
use async_task_worker.Worker.Adding.{on_task_completed-some}
use async_task_worker.Worker.{
  Worker, get_task_info, cancel_begin, cancel_in_pool, cancel_finish, cancel_task, on_task_started,
  on_task_completed,
}

-- The record of a task that was cancelled before it ran.
abbrev pub cancelled_early : {V : Type 0} → ℕ → TaskInfo V → TaskInfo V
cancelled_early now info = record info {
  status = cancelled;
  completed_at = some now;
  error = some "Task cancelled before execution";
}

module _ {V : Type 0} where
  pub set_exception-at :
      (t : String) (e : Failure) (m : Manager V) (a : ℕ)
      → find_open t m ≡ some a
      → at (Futures.set_exception t e m).store a ≡ some (raised e)
  unfolding Futures.set_exception
  set_exception-at t e m a h =
      rw (h, Futures.settle_open)
        (ground (arith, at-write m.store a a (raised e), find_open-some t m a h))

  -- An outcome that a future has got stays.
  set_result-raised :
      (t : String) (v : V) (m : Manager V) (a : ℕ) (e : Failure)
      → at m.store a ≡ some (raised e)
      → at (Futures.complete_from_result t v m).store a ≡ some (raised e)
  unfolding Futures.complete_from_result
  set_result-raised t v m a e h = elim (Option-cases (find_open t m)) [
    | inl k ↦ rw (Futures.settle_open, k) h
    | inr (b, k) ↦
        rw (Futures.settle_open, k)
          (ground (arith, h, at-write m.store b a (resolved v), find_open-some t m b k))
  ]

  -- The task is there and has ended.
  abbrev pub ended : String → Dict (TaskInfo V) → Bool
  ended t tasks = elim (Dict.lookup t tasks) [ none ↦ false | some info ↦ is_terminal_state info ]

  ended-insert :
      (now : ℕ) (t : String) (tasks : Dict (TaskInfo V)) (reason : Option String)
      (info : TaskInfo V)
      → ended t (Dict.insert t (mark_cancelled now reason info) tasks) ≡ true
  unfolding is_terminal_state mark_cancelled
  ended-insert now t tasks reason info =
      rw (ended, Dict.lookup-insert t t (mark_cancelled now reason info) tasks) (ground arith)

module _ {V F A : Type 0} where
  -- The worker after a pending task was cancelled, as one record.
  abbrev pub dropped : ℕ → String → TaskInfo V → Worker V F A → Worker V F A
  dropped now t info w = record w {
    queue = (Queue.remove_task t w.queue).0;
    tasks = Dict.insert t (cancelled_early now info) w.tasks;
    future_manager = Futures.set_exception t (task_error "Task cancelled" t) w.future_manager;
  }

  pub cancel_task-dropped :
      (now later : ℕ) (t : String) (w : Worker V F A) (info : TaskInfo V)
      → get_task_info t w ≡ some info
      → info.status ≡ pending
      → cancel_task now later t w ≡ (dropped now t info w, true)
  unfolding cancel_task cancel_begin get_task_info is_terminal_state mark_cancelled
  cancel_task-dropped now later t w info h s = ground (arith, h, s)

  -- Cancelling a task that is pending answers true. It takes the task out of the waiting ones,
  -- keeps the bookkeeping of a valid queue valid, marks the task as cancelled, and raises the
  -- cancellation on its future, if that is open.
  pub cancel_pending :
      (now later : ℕ) (t : String) (w : Worker V F A) (info : TaskInfo V)
      → IsValid w.queue
      → get_task_info t w ≡ some info
      → info.status ≡ pending
      → let w' = (cancel_task now later t w).0 in
        ((cancel_task now later t w).1 ≡ true)
        × (get_task_info t w' ≡ some (cancelled_early now info))
        × IsValid w'.queue
        × (Invariant.pending w'.queue ≡ without t (Invariant.pending w.queue))
        × ((a : ℕ)
            → find_open t w.future_manager ≡ some a
            → at w'.future_manager.store a ≡ some (raised (task_error "Task cancelled" t)))
  unfolding get_task_info
  cancel_pending now later t w info v h s =
      let (valid, waiting, _) = remove_task_refines t w.queue v in
      rw (cancel_task-dropped now later t w info h s) (
        refl,
        ground (arith, Dict.lookup-insert t t (cancelled_early now info) w.tasks),
        valid,
        waiting,
        λ a k. set_exception-at t (task_error "Task cancelled" t) w.future_manager a k,
      )

  cancel_task-ended :
      (now later : ℕ) (t : String) (w : Worker V F A)
      → ended t w.tasks ≡ true
      → cancel_task now later t w ≡ (w, false)
  unfolding cancel_task cancel_begin
  cancel_task-ended now later t w h = ground (arith, h)

  cancel_begin-ended :
      (now : ℕ) (t : String) (w : Worker V F A)
      → (cancel_begin now t w).1 ≡ some true
      → ended t (cancel_begin now t w).0.tasks ≡ true
  unfolding cancel_begin
  cancel_begin-ended now t w h = elim (Option-cases (Dict.lookup t w.tasks)) [
    | inl e ↦ ground (arith, h, e)
    | inr (info, e) ↦
        ground
          (arith, h, e, ended-insert now t w.tasks (some "Task cancelled before execution") info)
  ]

  cancel_finish-ended :
      (now : ℕ) (t : String) (b : Bool) (w : Worker V F A)
      → (cancel_finish now t b w).1 ≡ true
      → ended t (cancel_finish now t b w).0.tasks ≡ true
  unfolding cancel_finish
  cancel_finish-ended now t b w h = elim (Option-cases (Dict.lookup t w.tasks)) [
    | inl e ↦ ground (arith, h, e)
    | inr (info, e) ↦ ground (
      arith,
      h,
      e,
      ended-insert now t w.tasks
          (some (if b then "Task execution cancelled" else "Task cancellation requested")) info,
    )
  ]

  cancel_task-ends :
      (now later : ℕ) (t : String) (w : Worker V F A)
      → (cancel_task now later t w).1 ≡ true
      → ended t (cancel_task now later t w).0.tasks ≡ true
  unfolding cancel_task
  cancel_task-ends now later t w h = elim (Option-cases (cancel_begin now t w).1) [
    | inl e ↦
        let (w2, found) = cancel_in_pool t (cancel_begin now t w).0 in
        ground (arith, cancel_finish-ended later t found w2)
    | inr (b, e) ↦ ground (arith, cancel_begin-ended now t w, e)
  ]

  -- After a call of `cancel_task` that answered true, a further call for the same task answers
  -- false and changes nothing.
  pub cancel_again :
      (now later now' later' : ℕ) (t : String) (w : Worker V F A)
      → (cancel_task now later t w).1 ≡ true
      → cancel_task now' later' t (cancel_task now later t w).0
        ≡ ((cancel_task now later t w).0, false)
  cancel_again now later now' later' t w h =
      cancel_task-ended now' later' t _ (cancel_task-ends now later t w h)

  on_task_started-some :
      (now : ℕ) (t : String) (w : Worker V F A) (info : TaskInfo V)
      → Dict.lookup t w.tasks ≡ some info
      → (Dict.lookup t (on_task_started now t w).tasks ≡ some (mark_started now info))
        × ((on_task_started now t w).future_manager ≡ w.future_manager)
  unfolding on_task_started
  on_task_started-some now t w info h =
      ground (arith, h, Dict.lookup-insert t t (mark_started now info) w.tasks)

  -- A task that a worker took from the queue just before it is cancelled: `cancel_task` answers
  -- true and raises the cancellation on the future of the task, yet the worker starts the task, and
  -- when it completes the task has the status `completed` and a result.
  pub cancelled_task_completes :
      (now later start end : ℕ) (t : String) (result : V) (w : Worker V F A) (info : TaskInfo V)
      → get_task_info t w ≡ some info
      → info.status ≡ pending
      → Queue.is_task_queued t w.queue ≡ false
      → let w1 = (cancel_task now later t w).0 in
        let w2 = on_task_completed end t result false (on_task_started start t w1) in
        ((cancel_task now later t w).1 ≡ true)
        × (w1.queue ≡ w.queue)
        × ((i : TaskInfo V) × (get_task_info t w2 ≡ some i)
            × (i.status ≡ completed)
            × (i.result ≡ some result))
        × ((a : ℕ)
            → find_open t w.future_manager ≡ some a
            → at w2.future_manager.store a ≡ some (raised (task_error "Task cancelled" t)))
  unfolding get_task_info mark_started mark_completed is_terminal_state Queue.remove_task
      Queue.is_task_queued
  cancelled_task_completes now later start end t result w info h s k =
      let w1 = dropped now t info w in
      let there : Dict.lookup t w1.tasks ≡ some (cancelled_early now info) =
        Dict.lookup-insert t t (cancelled_early now info) w.tasks ∙ ground arith in
      let (i1, m1) = on_task_started-some start t w1 (cancelled_early now info) there in
      let (i2, m2) = on_task_completed-some end t result false (on_task_started start t w1) _ i1 in
      rw (cancel_task-dropped now later t w info h s) (
        refl,
        ground (arith, k),
        (_, i2, refl, refl),
        λ a o.
            rw (m2, m1)
              (set_result-raised t result w1.future_manager a (task_error "Task cancelled" t)
                (set_exception-at t (task_error "Task cancelled" t) w.future_manager a o)),
      )

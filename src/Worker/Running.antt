-- ===== src/Worker/Running.antt =====
-- src/async_task_worker/core.py and src/async_task_worker/pool.py: a task that runs, and what becomes
-- of it when it is cancelled.
use async_task_worker.Base.{ℕ, String, ◌≡◌, refl, true, false, some, arith, ◌∙◌}
use async_task_worker.Base.Dict
use async_task_worker.Base.Dict.{contains}
use async_task_worker.Status.{
  running, cancelled, failed, TaskInfo, mark_failed, mark_cancelled, is_terminal_state,
}
use async_task_worker.Exceptions.{str, task_cancellation_error}
use async_task_worker.Executor.{fails}
use async_task_worker.Futures
use async_task_worker.Futures.{task_error}
use async_task_worker.Pool
use async_task_worker.Pool.{Execution, active, cancelling}
use async_task_worker.Worker.{
  Worker, get_task_info, cancel_begin, cancel_in_pool, cancel_finish, cancel_task, on_task_failed,
}
use async_task_worker.Worker.Process.{outcome, process_end, report}

module _ {V : Type 0} where
  -- The record of a task that was cancelled while it ran.
  abbrev pub cancelled_running : ℕ → TaskInfo V → TaskInfo V
  cancelled_running later info = record info {
    status = cancelled;
    completed_at = some later;
    error = some "Task execution cancelled";
  }

module _ {V F A : Type 0} where
  -- The worker after a running task was cancelled, as one record.
  abbrev pub stopping : ℕ → String → TaskInfo V → Worker V F A → Worker V F A
  stopping later t info w = record w {
    worker_pool = Pool.advance cancelling t w.worker_pool;
    tasks = Dict.insert t (cancelled_running later info) w.tasks;
    future_manager = Futures.set_exception t (task_error "Task cancelled" t) w.future_manager;
  }

  cancel_task-stopping :
      (now later : ℕ) (t : String) (w : Worker V F A) (info : TaskInfo V)
      → get_task_info t w ≡ some info
      → info.status ≡ running
      → Dict.lookup t w.worker_pool.task_to_worker ≡ some active
      → cancel_task now later t w ≡ (stopping later t info w, true)
  unfolding cancel_task cancel_begin cancel_in_pool cancel_finish get_task_info is_terminal_state
      mark_cancelled Pool.cancel_running_task
  cancel_task-stopping now later t w info h s a = ground (arith, h, s, a)

  on_task_failed-some :
      (now : ℕ) (t error : String) (w : Worker V F A) (info : TaskInfo V)
      → Dict.lookup t w.tasks ≡ some info
      → Dict.lookup t (on_task_failed now t error w).tasks ≡ some (mark_failed now error info)
  unfolding on_task_failed
  on_task_failed-some now t error w info h =
      ground (arith, h, Dict.lookup-insert t t (mark_failed now error info) w.tasks)

  -- Cancelling a task whose execution is active answers true, asks the execution to stop, and marks
  -- the task as cancelled. When the execution then ends with the error that `execute_task` raises
  -- for it, the task's status is `failed` and its error text is that of the cancellation, while its worker goes on
  -- and no longer holds the execution.
  pub cancelled_running_fails :
      (now later end : ℕ) (t : String) (w : Worker V F A) (info : TaskInfo V)
      → get_task_info t w ≡ some info
      → info.status ≡ running
      → Dict.lookup t w.worker_pool.task_to_worker ≡ some active
      → let w1 = (cancel_task now later t w).0 in
        let e = task_cancellation_error "Task cancelled" (some t) in
        let w2 = (process_end end t (outcome (fails e)) w1).0 in
        ((cancel_task now later t w).1 ≡ true)
        × (get_task_info t w1 ≡ some (cancelled_running later info))
        × (Dict.lookup t w1.worker_pool.task_to_worker ≡ some cancelling)
        × ((i : TaskInfo V) × (get_task_info t w2 ≡ some i)
            × (i.status ≡ failed)
            × (i.error ≡ some (str e)))
        × (contains t w2.worker_pool.running_tasks ≡ false)
        × ((process_end end t (outcome (fails e)) w1).1 ≡ true)
  unfolding get_task_info process_end report Pool.advance mark_failed
  cancelled_running_fails now later end t w info h s a =
      let e = task_cancellation_error "Task cancelled" (some t) in
      let w1 = stopping later t info w in
      let there : Dict.lookup t w1.tasks ≡ some (cancelled_running later info) =
        Dict.lookup-insert t t (cancelled_running later info) w.tasks ∙ ground arith in
      let w2 = on_task_failed end t (str e) w1 in
      rw (cancel_task-stopping now later t w info h s a) (
        refl,
        there,
        ground (arith, Dict.lookup-insert t t cancelling w.worker_pool.task_to_worker),
        (
          mark_failed end (str e) (cancelled_running later info),
          on_task_failed-some end t (str e) w1 (cancelled_running later info) there,
          refl,
          refl,
        ),
        ground (arith, Dict.lookup-delete t t w2.worker_pool.running_tasks),
        refl,
      )

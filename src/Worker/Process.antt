-- ===== src/Worker/Process.antt =====
-- src/async_task_worker/pool.py: `_process_task` of `WorkerPool`, with the callbacks of
-- src/async_task_worker/core.py. The execution of the task runs on its own between the two parts.
use async_task_worker.Base.{ℕ, String, Bool, true, false}
use async_task_worker.Exceptions.{str}
use async_task_worker.Executor.{Outcome, done, not_coroutine, call_raised, fails}
use async_task_worker.Pool
use async_task_worker.Worker.{Worker, on_task_started, on_task_failed, on_task_cancelled}

-- What the await of the execution comes to: what `execute_task` returned or raised, or the
-- CancelledError of an execution that was cancelled before its first step.
pub data Ended (V : Type 0) : Type 0 where
  outcome : Outcome V → Ended V
  cancelled_error : Ended V

module _ {V F A : Type 0} where
  -- Up to the registration of the execution.
  unfoldable pub process_begin : ℕ → String → Worker V F A → Worker V F A
  unfolding Pool.register
  process_begin now t w =
      let started = on_task_started now t w in
      record started { worker_pool = Pool.register t started.worker_pool }

  -- The callbacks of the `except` clauses, and whether the worker goes on to the next task. The
  -- completion callback was called by `execute_task`.
  unfoldable pub report : ℕ → String → Ended V → Worker V F A → Worker V F A × Bool
  unfolding str
  report now t (outcome (done v)) w = (w, true)
  report now t (outcome (not_coroutine message)) w = (on_task_failed now t message w, true)
  report now t (outcome (call_raised message)) w = (on_task_failed now t message w, true)
  report now t (outcome (fails e)) w = (on_task_failed now t (str e) w, true)
  report now t cancelled_error w =
      (on_task_cancelled now t "Task cancelled during execution" w, false)

  -- From the end of the execution on: the `finally` block comes last.
  unfoldable pub process_end : ℕ → String → Ended V → Worker V F A → Worker V F A × Bool
  unfolding report Pool.unregister
  process_end now t e w =
      let (w', goes_on) = report now t e w in
      (record w' { worker_pool = Pool.unregister t w'.worker_pool }, goes_on)

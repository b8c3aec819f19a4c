-- ===== src/Pool.antt =====
-- src/async_task_worker/pool.py: the bookkeeping of `WorkerPool`.
-- An execution is the asyncio task that `_process_task` awaits. A critical section under
-- `_running_tasks_lock` is one step. The calls of the callbacks stand in Worker.
use async_task_worker.Base.{
  ℕ, String, Bool, true, false, not, none, some, List, [], ◌∷◌, length, if◌then◌else◌,
}
use async_task_worker.Base.Dict
use async_task_worker.Base.Dict.{Dict, contains}

pub data Execution : Type 0 where
  active cancelling finished : Execution

abbrev pub is_done : Execution → Bool
is_done active = false
is_done cancelling = false
is_done finished = true

pub record WorkerPool : Type 0 where
  pub max_workers : ℕ
  pub workers : ℕ
  pub running : Bool
  pub running_tasks : Dict Execution
  pub task_to_worker : Dict Execution

unfoldable pub init : ℕ → WorkerPool
init max_workers = record {
  max_workers = max_workers;
  workers = 0;
  running = false;
  running_tasks = [];
  task_to_worker = [];
}

unfoldable pub start : WorkerPool → WorkerPool
start p = if p.running then p else record p { running = true; workers = p.max_workers }

-- The part of `_process_task` that registers the execution.
unfoldable pub register : String → WorkerPool → WorkerPool
register task_id p = record p {
  running_tasks = Dict.insert task_id active p.running_tasks;
  task_to_worker = Dict.insert task_id active p.task_to_worker;
}

-- The `finally` block of `_process_task`.
unfoldable pub unregister : String → WorkerPool → WorkerPool
unregister task_id p = record p {
  running_tasks = Dict.delete task_id p.running_tasks;
  task_to_worker = Dict.delete task_id p.task_to_worker;
}

-- An execution object stands in both dictionaries, so its new state is written to both.
unfoldable pub advance : Execution → String → WorkerPool → WorkerPool
advance e task_id p = record p {
  running_tasks = Dict.insert task_id e p.running_tasks;
  task_to_worker = Dict.insert task_id e p.task_to_worker;
}

unfoldable pub cancel_running_task : String → WorkerPool → WorkerPool × Bool
unfolding advance unregister
cancel_running_task task_id p = elim (Dict.lookup task_id p.task_to_worker) [
  | none ↦ (p, false)
  | some e ↦
      if is_done e then (unregister task_id p, false) else (advance cancelling task_id p, true)
]

-- The loop of `stop` that cancels the executions: the ids that were not done.
unfoldable pub cancelled_ids : Dict Execution → List String
cancelled_ids [] = []
cancelled_ids ((t, e) ∷ rest) = let ids = cancelled_ids rest in if is_done e then ids else t ∷ ids

-- The state after `stop`, and the tasks for which `on_task_cancelled` is called.
unfoldable pub stop : WorkerPool → WorkerPool × List String
unfolding cancelled_ids
stop p = if not p.running then (p, []) else (
  record p { running = false; workers = 0; running_tasks = []; task_to_worker = [] },
  cancelled_ids p.running_tasks,
)

unfoldable pub active_tasks_count : WorkerPool → ℕ
active_tasks_count p = length p.running_tasks

unfoldable pub worker_count : WorkerPool → ℕ
worker_count p = p.workers

-- ===== src/Worker.antt =====
-- src/async_task_worker/core.py: `AsyncTaskWorker`, the part that manages tasks.
-- A critical section under `tasks_lock` is one step; where a method takes the lock twice it is two
-- steps, between which other tasks may run. `now` is a reading of the clock, in milliseconds.
mod Cancel
pub mod Maintenance
pub mod Process
mod Running
pub mod Adding
mod Retention
pub mod Listing
pub mod Caching
mod Invalidated
pub mod Loop
pub mod Owes
pub mod Owed
pub mod Lost
pub mod Serve
mod Served
pub mod Waits
pub mod Fetched
mod Awaited
mod Asked
mod AwaitedAny
mod Sample
mod Tests
mod LoopTests
mod CachingTests
use Prim.Native.String.{◌++◌}
use async_task_worker.Base.{
  ℕ, suc, ◌+◌, ◌*◌, ◌-◌, String, Bool, true, false, not, ◌&&◌, Option, none, some, List, [], ◌∷◌,
  length, if◌then◌else◌, ltb, leb, str_dec, ite,
}
use async_task_worker.Base.Dict
use async_task_worker.Base.Dict.{Dict, contains}
use async_task_worker.Base.Int.{ℤ}
use async_task_worker.Status.{
  TaskStatus, pending, running, completed, failed, cancelled, TaskInfo, new_task, is_terminal_state,
  mark_started, mark_completed, mark_failed, mark_cancelled,
}
use async_task_worker.Queue
use async_task_worker.Queue.{TaskQueue}
use async_task_worker.Queue.Heap.{Item}
use async_task_worker.Futures
use async_task_worker.Futures.{Manager, Failure, task_error}
use async_task_worker.Pool
use async_task_worker.Pool.{WorkerPool}

-- What the queue stores of a call: the function, its arguments and the cache options that
-- `add_task` puts among the keyword arguments.
pub record Job (F A : Type 0) : Type 0 where
  pub func : F
  pub args : A
  pub use_cache : Bool
  pub cache_ttl : Option ℕ
  pub cache_entry_id : Option String
  pub normal_cache_key : Bool

pub record Worker (V F A : Type 0) : Type 0 where
  pub tasks : Dict (TaskInfo V)
  pub queue : TaskQueue (Job F A)
  pub future_manager : Manager V
  pub task_futures : Dict ℕ
  pub worker_pool : WorkerPool
  pub running : Bool
  pub cache_enabled : Bool
  pub default_task_timeout : Option ℕ
  pub task_retention_days : Option ℕ

-- The arguments of `add_task`.
pub record Request (V F A : Type 0) : Type 0 where
  pub func : F
  pub args : A
  pub priority : ℤ
  pub task_id : Option String
  pub metadata : Dict V
  pub timeout : Option ℕ
  pub use_cache : Bool
  pub cache_ttl : Option ℕ

-- `add_task`: the id, the RuntimeError of a worker that is not running, or a wait on a full queue.
pub data Added : Type 0 where
  added : String → Added
  not_running : Added
  waits_for_room : String → Added

module _ {V F A : Type 0} where
  -- `self.tasks[task_id].…`, where the task is there.
  abbrev pub update_task : String → (TaskInfo V → TaskInfo V) → Worker V F A → Worker V F A
  update_task t f w = elim (Dict.lookup t w.tasks) [
    | none ↦ w
    | some info ↦ record w { tasks = Dict.insert t (f info) w.tasks }
  ]

  -- `fresh_id` is the UUID that stands in for a missing id, and `name` the function's `__name__`.
  unfoldable pub make_item : (F → String) → String → Request V F A → Worker V F A → Item (Job F A)
  make_item name t r w = record {
    priority = r.priority;
    task_id = t;
    call = record {
      func = r.func;
      args = r.args;
      use_cache = r.use_cache;
      cache_ttl = r.cache_ttl;
      cache_entry_id =
          if r.use_cache && w.cache_enabled then some (name r.func ++ ":" ++ t) else none;
      normal_cache_key = r.use_cache && w.cache_enabled;
    };
    timeout = elim r.timeout [ none ↦ w.default_task_timeout | some s ↦ some s ];
  }

  unfoldable pub add_task :
      (F → String) → String → ℕ → ℕ → ℕ → Request V F A → Worker V F A → Worker V F A × Added
  unfolding make_item
  add_task name fresh_id created entered now r w =
      if not w.running
      then (w, not_running)
      else let t : String = elim r.task_id [ none ↦ fresh_id | some i ↦ i ] in
        let w' = record w { tasks = Dict.insert t (new_task t created r.metadata) w.tasks } in
        elim (Queue.put entered now (make_item name t r w) w.queue) [
          | none ↦ (w', waits_for_room t)
          | some q ↦ (record w' { queue = q }, added t)
        ]

  unfoldable pub get_task_info : String → Worker V F A → Option (TaskInfo V)
  get_task_info t w = Dict.lookup t w.tasks

  -- The first critical section of `cancel_task`: a final answer, or `none` for a running task.
  unfoldable pub cancel_begin : ℕ → String → Worker V F A → Worker V F A × Option Bool
  cancel_begin now t w = elim (Dict.lookup t w.tasks) [
    | none ↦ (w, some false)
    | some info ↦ if is_terminal_state info then (w, some false) else elim info.status [
      | running ↦ (w, none)
      | _ ↦ (
        record w {
          queue = (Queue.remove_task t w.queue).0;
          tasks =
              Dict.insert t (mark_cancelled now (some "Task cancelled before execution") info)
                w.tasks;
          future_manager = Futures.set_exception t (task_error "Task cancelled" t) w.future_manager;
        },
        some true,
      )
    ]
  ]

  unfoldable pub cancel_in_pool : String → Worker V F A → Worker V F A × Bool
  cancel_in_pool t w =
      let (p, found) = Pool.cancel_running_task t w.worker_pool in
      (record w { worker_pool = p }, found)

  -- The second critical section of `cancel_task`, for a task that was running.
  unfoldable pub cancel_finish : ℕ → String → Bool → Worker V F A → Worker V F A × Bool
  cancel_finish now t worker_cancelled w = elim (Dict.lookup t w.tasks) [
    | none ↦ (w, false)
    | some info ↦ if is_terminal_state info then (w, false) else (
      record w {
        tasks =
            Dict.insert t
              (mark_cancelled now
                (some (
                  if worker_cancelled
                  then "Task execution cancelled"
                  else "Task cancellation requested"))
                info)
              w.tasks;
        future_manager = Futures.set_exception t (task_error "Task cancelled" t) w.future_manager;
      },
      true,
    )
  ]

  -- `cancel_task` where no other task runs between its steps.
  unfoldable pub cancel_task : ℕ → ℕ → String → Worker V F A → Worker V F A × Bool
  unfolding cancel_begin cancel_in_pool cancel_finish
  cancel_task now later t w =
      let (w1, answer) = cancel_begin now t w in
      elim answer [
        | some b ↦ (w1, b)
        | none ↦ let (w2, found) = cancel_in_pool t w1 in cancel_finish later t found w2
      ]

  unfoldable pub on_task_started : ℕ → String → Worker V F A → Worker V F A
  on_task_started now t w = update_task t (mark_started now) w

  unfoldable pub on_task_completed : ℕ → String → V → Bool → Worker V F A → Worker V F A
  on_task_completed now t result from_cache w = elim (Dict.lookup t w.tasks) [
    | none ↦ w
    | some info ↦ record w {
      tasks =
          Dict.insert t (mark_completed now result (record info { from_cache = from_cache }))
            w.tasks;
      future_manager = Futures.complete_from_result t result w.future_manager;
    }
  ]

  unfoldable pub on_task_failed : ℕ → String → String → Worker V F A → Worker V F A
  on_task_failed now t error w = elim (Dict.lookup t w.tasks) [
    | none ↦ w
    | some info ↦ record w {
      tasks = Dict.insert t (mark_failed now error info) w.tasks;
      future_manager = Futures.set_exception t (task_error error t) w.future_manager;
    }
  ]

  unfoldable pub on_task_cancelled : ℕ → String → String → Worker V F A → Worker V F A
  on_task_cancelled now t reason w = elim (Dict.lookup t w.tasks) [
    | none ↦ w
    | some info ↦ record w {
      tasks = Dict.insert t (mark_cancelled now (some reason) info) w.tasks;
      future_manager = Futures.set_exception t (task_error "Task cancelled" t) w.future_manager;
    }
  ]

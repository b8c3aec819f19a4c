-- ===== src/Api/Tasks.antt =====
-- src/async_task_worker/api.py: the routes that create and list tasks, the list of task types, and the
-- health of the service.
use Prim.Native.String.{◌++◌}
use async_task_worker.Base.{
  ℕ, ◌*◌, ◌-◌, String, Bool, false, ◌||◌, Option, none, some, List, [], ◌∷◌, map, length,
  if◌then◌else◌, ltb, ◌==◌, str_dec, ite,
}
use async_task_worker.Base.Dict
use async_task_worker.Base.Dict.{Dict, contains}
use async_task_worker.Base.Int.{ℤ}
use async_task_worker.Status.{TaskStatus, TaskInfo}
use async_task_worker.Exceptions.{TaskError, internal, task_definition_error}
use async_task_worker.Queue.Heap
use async_task_worker.Pool
use async_task_worker.Registry.{get_task_function, get_all_task_types}
use async_task_worker.Worker.{
  Worker, Request, Added, added, not_running, waits_for_room, add_task, get_task_info,
}
use async_task_worker.Worker.Maintenance.{get_all_tasks}
use async_task_worker.Api.{
  Response, success, http_error, TaskResponse, response_of, map_error_to_status_code, task_error,
  type_error, other_error,
}

pub record TaskSubmitRequest (V P : Type 0) : Type 0 where
  pub task_type : String
  pub params : Dict P
  pub priority : ℤ
  pub task_id : Option String
  pub metadata : Option (Dict V)
  pub timeout : Option ℕ
  pub use_cache : Bool
  pub cache_ttl : Option ℕ

-- `validate_task_type`: `none` is its ValueError.
unfoldable pub validate_task_type : String → Option String
validate_task_type v = ite (str_dec v "") none (some v)

-- The parameters of `add_task` that the call in `create_task` fills.
abbrev pub filled : List String
filled =
    "self" ∷ "task_func" ∷ "priority" ∷ "task_id" ∷ "metadata" ∷ "timeout" ∷ "use_cache"
    ∷ "cache_ttl" ∷ []

-- A parameter of the task with the name of one of them gives that one two values, a TypeError.
unfoldable pub clashes : {P : Type 0} → List String → Dict P → Bool
clashes [] params = false
clashes (name ∷ names) params = let rest = clashes names params in contains name params || rest

-- The error for a task that was added and is not found.
unfoldable pub lost_task : String → TaskError
lost_task t = record {
  message = "Task " ++ t ++ " created but info not found";
  category = internal;
  original_error = none;
  task_id = none;
  is_retryable = false;
}

module _ {V F P : Type 0} where
  -- `text` is the value of a text. The task gets the parameters as keyword arguments.
  unfoldable pub to_request : (String → V) → F → TaskSubmitRequest V P → Request V F (Dict P)
  to_request text task_func r = record {
    func = task_func;
    args = r.params;
    priority = r.priority;
    task_id = r.task_id;
    metadata =
        Dict.insert "task_type" (text r.task_type) (elim r.metadata [ none ↦ [] | some m ↦ m ]);
    timeout = r.timeout;
    use_cache = r.use_cache;
    cache_ttl = r.cache_ttl;
  }

  -- What follows `add_task`. There is no answer (`none`) while the request waits for room.
  unfoldable pub submitted :
      Worker V F (Dict P) × Added → Worker V F (Dict P) × Option (Response (TaskResponse V))
  unfolding response_of lost_task map_error_to_status_code
  submitted (w, added t) = (
    w,
    elim (get_task_info t w) [
      | none ↦ some (http_error (map_error_to_status_code (task_error (lost_task t))))
      | some info ↦ some (success (response_of info))
    ],
  )
  submitted (w, not_running) = (w, some (http_error (map_error_to_status_code other_error)))
  submitted (w, waits_for_room t) = (w, none)

  unfoldable pub create_task :
      Dict F
      → (F → String)
      → (String → V)
      → String
      → ℕ
      → ℕ
      → ℕ
      → TaskSubmitRequest V P
      → Worker V F (Dict P)
      → Worker V F (Dict P) × Option (Response (TaskResponse V))
  unfolding to_request submitted clashes map_error_to_status_code
  create_task registry name text fresh_id created entered now r w =
      elim (get_task_function r.task_type registry) [
        | none ↦ (
          w,
          some (
              http_error (
                map_error_to_status_code (
                  task_error
                    (task_definition_error ("Unknown task type: " ++ r.task_type) none none)))),
        )
        | some task_func ↦
            if clashes filled r.params
            then (w, some (http_error (map_error_to_status_code type_error)))
            else submitted
                (add_task name fresh_id created entered now (to_request text task_func r) w)
      ]

pub record TaskListResponse (V : Type 0) : Type 0 where
  pub tasks : List (TaskResponse V)
  pub count : ℕ

unfoldable pub listed : {V : Type 0} → List (TaskInfo V) → TaskListResponse V
unfolding response_of
listed tasks = record { tasks = map response_of tasks; count = length tasks }

unfoldable pub get_task_types : {F : Type 0} → Dict F → Response (List String)
get_task_types registry = success (get_all_task_types registry)

pub record HealthResponse : Type 0 where
  pub status : String
  pub worker_count : ℕ
  pub queue_size : ℕ

module _ {V F A : Type 0} where
  -- Times are in milliseconds from the first one that Python's datetime has, so that an age that goes
  -- back beyond it raises an OverflowError. FastAPI lets limits from 1 to 100 through.
  unfoldable pub list_tasks :
      ℕ → Option TaskStatus → ℕ → Option ℕ → Worker V F A → Response (TaskListResponse V)
  unfolding listed map_error_to_status_code
  list_tasks now task_status limit none w =
      success (listed (get_all_tasks task_status (some limit) none w))
  list_tasks now task_status limit (some minutes) w =
      if minutes == 0
      then success (listed (get_all_tasks task_status (some limit) none w))
      else if ltb now (minutes * 60000)
      then http_error (map_error_to_status_code other_error)
      else success
          (listed (get_all_tasks task_status (some limit) (some (now - minutes * 60000)) w))

  unfoldable pub health_check : Worker V F A → Response HealthResponse
  health_check w = success (record {
    status = if w.running then "ok" else "stopped";
    worker_count = Pool.worker_count w.worker_pool;
    queue_size = Heap.qsize w.queue.queue;
  })

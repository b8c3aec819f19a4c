-- ===== src/Api/Tests.antt =====
-- The routes of src/async_task_worker/api.py on small inputs, and the theorem at these.
use async_task_worker.Base.{ℕ, String, some, arith, ◌≡◌, refl, true, false, none, [], ◌∷◌}
use async_task_worker.Status.{new_task}
use async_task_worker.Exceptions.{TaskError, resource}
use async_task_worker.Queue
use async_task_worker.Queue.Heap
use async_task_worker.Futures
use async_task_worker.Pool
use async_task_worker.Worker
use async_task_worker.Worker.{Worker, get_task_info}
use async_task_worker.Api.{task_error, map_error_to_status_code, get_task, cancel_task}
use async_task_worker.Api.Routes.{Answered, routes_answer}
use async_task_worker.Api.Tasks.{TaskSubmitRequest, create_task, list_tasks}
use async_task_worker.Api.Accepts.{Submits, verdict, create_task_answers}
use async_task_worker.Api.Lists.{Lists, list_tasks-Lists}
use async_task_worker.Base.Dict.{Dict}
use async_task_worker.Base.Int.{pos}
use async_task_worker.Queue.Invariant.{init-IsValid}

abbrev busy : TaskError
busy = record {
  message = "no room";
  category = resource;
  original_error = none;
  task_id = none;
  is_retryable = true;
}

unavailable : map_error_to_status_code (task_error busy) ≡ 503
unfolding map_error_to_status_code
unavailable = refl

lost : map_error_to_status_code (task_error (record busy { message = "Type Not Found" })) ≡ 404
unfolding map_error_to_status_code
lost = refl

abbrev one_task : Worker ℕ String ℕ
one_task = record {
  tasks = ("a", new_task "a" 0 []) ∷ [];
  queue = Queue.init none;
  future_manager = Futures.new_manager;
  task_futures = [];
  worker_pool = Pool.start (Pool.init 2);
  running = true;
  cache_enabled = false;
  default_task_timeout = none;
  task_retention_days = none;
}

routes_answer_example :
    Answered
      (get_task_info "a" one_task)
      (get_task "a" one_task)
      (cancel_task 1 2 "a" one_task)
      one_task
      (Worker.cancel_task 1 2 "a" one_task)
routes_answer_example = routes_answer 1 2 "a" one_task

abbrev no_tasks : Worker ℕ String (Dict ℕ)
no_tasks = record {
  tasks = [];
  queue = Queue.init (some 4);
  future_manager = Futures.new_manager;
  task_futures = [];
  worker_pool = Pool.start (Pool.init 2);
  running = true;
  cache_enabled = false;
  default_task_timeout = none;
  task_retention_days = none;
}

abbrev submit : TaskSubmitRequest ℕ ℕ
submit = record {
  task_type = "double";
  params = ("n", 3) ∷ [];
  priority = pos 0;
  task_id = some "b";
  metadata = none;
  timeout = none;
  use_cache = true;
  cache_ttl = none;
}

abbrev registry : Dict String
registry = ("double", "f") ∷ []

abbrev own_name : String → String
own_name f = f

abbrev no_text : String → ℕ
no_text s = 0

create_task_answers_example :
    Submits own_name no_text "x" 1
      (verdict registry submit no_tasks)
      submit
      no_tasks
      (create_task registry own_name no_text "x" 1 2 3 submit no_tasks)
unfolding Queue.init Heap.full
create_task_answers_example =
    create_task_answers registry own_name no_text "x" 1 2 3 submit no_tasks (init-IsValid (some 4))
      refl refl tt

list_tasks-Lists_example :
    Lists 70_000 none 50 (some 1) one_task.tasks (list_tasks 70_000 none 50 (some 1) one_task)
list_tasks-Lists_example =
    list_tasks-Lists 70_000 none 50 (some 1) one_task (omega arith) (omega arith)

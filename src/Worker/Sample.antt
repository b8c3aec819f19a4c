-- ===== src/Worker/Sample.antt =====
-- A worker of src/async_task_worker/core.py with one task, before and after a loop takes it.
use async_task_worker.Base.{ℕ, String, true, false, none, some, [], ◌∷◌}
use async_task_worker.Base.Int.{pos}
use async_task_worker.Status.{new_task}
use async_task_worker.Queue
use async_task_worker.Queue.Invariant.{stored}
use async_task_worker.Futures.{new_manager, get_future}
use async_task_worker.Pool
use async_task_worker.Worker.{Worker, Request, make_item}
use async_task_worker.Worker.Process.{process_begin}

abbrev pub Small : Type 0
Small = Worker ℕ String ℕ

abbrev pub idle : Small
idle = record {
  tasks = [];
  queue = Queue.init (some 5);
  future_manager = new_manager;
  task_futures = [];
  worker_pool = Pool.start (Pool.init 2);
  running = true;
  cache_enabled = false;
  default_task_timeout = none;
  task_retention_days = some 1;
}

abbrev pub request : Request ℕ String ℕ
request = record {
  func = "f";
  args = 1;
  priority = pos 5;
  task_id = some "a";
  metadata = [];
  timeout = none;
  use_cache = false;
  cache_ttl = none;
}

abbrev pub name : String → String
name f = f

-- The task `a` waits, and a caller holds its future.
abbrev pub waiting : Small
waiting = record idle {
  tasks = ("a", new_task "a" 0 []) ∷ [];
  queue = stored 1 2 (make_item name "a" request idle) idle.queue;
  future_manager = (get_future "a" new_manager).0;
}

-- A worker took the task `a` from the queue and has not started it yet.
abbrev pub taken : Small
taken = record waiting { queue = (Queue.get 3 4 waiting.queue).0 }

abbrev pub at_work : Small
at_work = process_begin 5 "a" taken

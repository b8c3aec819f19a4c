-- ===== src/Worker/Loop.antt =====
-- src/async_task_worker/pool.py: `_worker_loop` and `_get_next_task`, with the calls that other tasks
-- make of the worker meanwhile, from its start to its stop.
use async_task_worker.Base.{
  ℕ, zero, suc, String, Bool, not, Option, none, some, List, [], ◌∷◌, if◌then◌else◌, ◌≡◌, false,
  true,
}
use async_task_worker.Base.Dict
use async_task_worker.Status.{new_task}
use async_task_worker.Queue
use async_task_worker.Queue.Heap.{ties}
use async_task_worker.Queue.{TaskQueue, Got, got, waits, value_error}
use async_task_worker.Worker.{
  Worker, Job, Request, make_item, add_task, cancel_begin, cancel_in_pool, cancel_finish,
  on_task_completed,
}
use async_task_worker.Worker.Maintenance.{cleanup_old_tasks}
use async_task_worker.Worker.Process.{Ended, process_begin, process_end}
use async_task_worker.Worker.Waits.{set}

-- Where a worker loop stands: it waits for a task, it has got one from the queue, it awaits the
-- execution of one, or it has ended.
pub data Phase : Type 0 where
  waiting : Phase
  taken : String → Phase
  processing : String → Phase
  stopped : Phase

abbrev pub get_elem? {ℓ} : {A : Type ℓ} → List A → ℕ → Option A
get_elem? [] i = none
get_elem? (x ∷ xs) zero = some x
get_elem? (x ∷ xs) (suc i) = get_elem? xs i

module _ {V F A : Type 0} where
  -- What follows an answer of the queue. An unexpected error is logged, and the loop goes on.
  unfoldable pub take_task : Worker V F A → Got (Job F A) → Worker V F A × Phase
  take_task w (got item) = (w, taken item.task_id)
  take_task w waits = (w, waiting)
  take_task w value_error = (w, waiting)

  -- The start of an iteration: the test of `self.running` and `_get_next_task`, whose timeout leaves
  -- the loop waiting.
  unfoldable pub next_task : ℕ → ℕ → Worker V F A → Worker V F A × Phase
  unfolding take_task
  next_task now later w =
      if not w.worker_pool.running
      then (w, stopped)
      else (let (q, answer) = Queue.get now later w.queue in
          take_task (record w { queue = q }) answer)

  -- `task_done` stands in the `finally` block, and its ValueError takes the place of a CancelledError.
  unfoldable pub close_task :
      Worker V F A → Bool → Option (TaskQueue (Job F A)) → Worker V F A × Phase
  close_task w goes_on none = (w, waiting)
  close_task w goes_on (some q) = (record w { queue = q }, if goes_on then waiting else stopped)

  -- The end of an iteration.
  unfoldable pub finish_task : ℕ → String → Ended V → Worker V F A → Worker V F A × Phase
  unfolding process_end close_task Queue.task_done
  finish_task end t e w =
      let (w', goes_on) = process_end end t e w in close_task w' goes_on (Queue.task_done w'.queue)

-- The id of a request, or the one that stands in for it.
abbrev pub requested_id : {V F A : Type 0} → String → Request V F A → String
requested_id fresh_id r = elim r.task_id [ none ↦ fresh_id | some i ↦ i ]

pub record System (V F A : Type 0) : Type 0 where
  pub worker : Worker V F A
  pub loops : List Phase

-- A step of a loop, or a call of the worker by another task. An added task collides where a task of the
-- queue has its priority and its id: the comparison of the functions may raise a TypeError, at once or
-- in a later call, and any queue may be what is left.
pub data Step {V F A : Type 0} (name : F → String) : System V F A → System V F A → Type 0 where
  fetches :
      (s : System V F A) (i now later : ℕ)
      → get_elem? s.loops i ≡ some waiting
      → Step name s (record {
        worker = (next_task now later s.worker).0;
        loops = set s.loops i (next_task now later s.worker).1;
      })
  begins :
      (s : System V F A) (i start : ℕ) (t : String)
      → get_elem? s.loops i ≡ some (taken t)
      → Step name s
          (record { worker = process_begin start t s.worker; loops = set s.loops i (processing t) })
  finishes :
      (s : System V F A) (i end : ℕ) (t : String) (e : Ended V)
      → get_elem? s.loops i ≡ some (processing t)
      → Step name s (record {
        worker = (finish_task end t e s.worker).0;
        loops = set s.loops i (finish_task end t e s.worker).1;
      })
  completes :
      (s : System V F A) (now : ℕ) (t : String) (v : V) (from_cache : Bool)
      → Step name s (record s { worker = on_task_completed now t v from_cache s.worker })
  adds :
      (s : System V F A) (fresh_id : String) (created entered now : ℕ) (r : Request V F A)
      → ties (make_item name (requested_id fresh_id r) r s.worker) s.worker.queue.queue.items
        ≡ false
      → Step name s
          (record s { worker = (add_task name fresh_id created entered now r s.worker).0 })
  collides :
      (s : System V F A) (fresh_id : String) (created : ℕ) (r : Request V F A)
      (q : TaskQueue (Job F A))
      → s.worker.running ≡ true
      → ties (make_item name (requested_id fresh_id r) r s.worker) s.worker.queue.queue.items ≡ true
      → Step name s (record s {
        worker = record s.worker {
          tasks =
              Dict.insert
                (requested_id fresh_id r)
                (new_task (requested_id fresh_id r) created r.metadata)
                s.worker.tasks;
          queue = q;
        };
      })
  cancels :
      (s : System V F A) (now : ℕ) (t : String)
      → Step name s (record s { worker = (cancel_begin now t s.worker).0 })
  cancels_in_pool :
      (s : System V F A) (t : String)
      → Step name s (record s { worker = (cancel_in_pool t s.worker).0 })
  ends_cancel :
      (s : System V F A) (now : ℕ) (t : String) (found : Bool)
      → Step name s (record s { worker = (cancel_finish now t found s.worker).0 })
  cleans :
      (s : System V F A) (now : ℕ)
      → Step name s (record s { worker = (cleanup_old_tasks now s.worker).0 })

pub data Reach {V F A : Type 0} (name : F → String) (s : System V F A) : System V F A → Type 0 where
  here : Reach name s s
  next : {t u : System V F A} → Reach name s t → Step name t u → Reach name s u

-- No task was added that collides.
abbrev pub IsUntiedStep :
    {V F A : Type 0} {name : F → String} {s u : System V F A} → Step name s u → Type 0
IsUntiedStep (fetches s i now later h) = Unit
IsUntiedStep (begins s i start t h) = Unit
IsUntiedStep (finishes s i end t e h) = Unit
IsUntiedStep (completes s now t v c) = Unit
IsUntiedStep (adds s fresh_id created entered now r h) = Unit
IsUntiedStep (collides s fresh_id created r q on h) = ⊥
IsUntiedStep (cancels s now t) = Unit
IsUntiedStep (cancels_in_pool s t) = Unit
IsUntiedStep (ends_cancel s now t found) = Unit
IsUntiedStep (cleans s now) = Unit

abbrev pub IsUntied :
    {V F A : Type 0} {name : F → String} {s u : System V F A} → Reach name s u → Type 0
IsUntied here = Unit
IsUntied (next r st) = IsUntied r × IsUntiedStep st

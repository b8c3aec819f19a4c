-- ===== src/Worker/Adding.antt =====
-- src/async_task_worker/core.py: `add_task` of `AsyncTaskWorker`, from the call to the completion of
-- the task.
use Prim.Native.String.{◌++◌}
use async_task_worker.Base.{
  ℕ, String, ◌≡◌, refl, Bool, true, false, none, some, arith, ◌∙◌, ite, str_dec, ◌&&◌,
  if◌then◌else◌,
}
use async_task_worker.Base.Dict
use async_task_worker.Base.Int.{pos}
use async_task_worker.Base.Dict.{Dict, IsUnique, insert-IsUnique}
use async_task_worker.Status.{
  TaskInfo, pending, completed, new_task, is_terminal_state, mark_completed,
}
use async_task_worker.Queue.Heap
use async_task_worker.Queue.Heap.{Item, push, has_id}
use async_task_worker.Queue.Invariant
use async_task_worker.Queue.Invariant.{IsValid, stored, put-stored, stored-IsValid, pending-stored}
use async_task_worker.Futures
use async_task_worker.Futures.{resolved, at, find_open, Manager}
use async_task_worker.Futures.Store.{at-write, find_open-some}
use async_task_worker.Worker.{
  Worker, Job, Request, added, add_task, make_item, get_task_info, on_task_completed,
}

module _ {V : Type 0} where
  complete_from_result-at :
      (t : String) (v : V) (m : Manager V) (a : ℕ)
      → find_open t m ≡ some a
      → at (Futures.complete_from_result t v m).store a ≡ some (resolved v)
  unfolding Futures.complete_from_result
  complete_from_result-at t v m a h =
      rw (h, Futures.settle_open)
        (ground (arith, at-write m.store a a (resolved v), find_open-some t m a h))

  completed_early :
      (now : ℕ) (v : V) (c : Bool) (info : TaskInfo V)
      → is_terminal_state info ≡ false
      → let i = mark_completed now v (record info { from_cache = c }) in
        (i.status ≡ completed) × (i.result ≡ some v) × (i.from_cache ≡ c)
  unfolding mark_completed is_terminal_state
  completed_early now v c info h = ground (arith, h)

module _ {V : Type 0} where
  -- The record of a task that was not started.
  abbrev pub IsNew : String → ℕ → Dict V → TaskInfo V → Type 0
  IsNew t created metadata info =
      (info.id ≡ t)
      × (info.status ≡ pending)
      × (info.created_at ≡ created)
      × (info.started_at ≡ none)
      × (info.completed_at ≡ none)
      × (info.result ≡ none)
      × (info.error ≡ none)
      × (info.progress ≡ pos 0)
      × (info.metadata ≡ metadata)
      × (info.from_cache ≡ false)

module _ {V F A : Type 0} where
  -- The id that a request comes to.
  abbrev pub id_of : String → Request V F A → String
  id_of fresh_id r = elim r.task_id [ none ↦ fresh_id | some i ↦ i ]

  -- The item for a call: its priority, its function with the arguments, its cache options, and its
  -- timeout or the default one.
  abbrev pub item_of : (F → String) → String → Request V F A → Worker V F A → Item (Job F A)
  item_of name t r w = record {
    priority = r.priority;
    task_id = t;
    call = record {
      func = r.func;
      args = r.args;
      use_cache = r.use_cache;
      cache_ttl = r.cache_ttl;
      cache_entry_id =
          if r.use_cache && w.cache_enabled then some (name r.func ++ ":" ++ t) else none;
      normal_cache_key = r.use_cache && w.cache_enabled;
    };
    timeout = elim r.timeout [ none ↦ w.default_task_timeout | some s ↦ some s ];
  }

  -- `add_task` on a running worker whose queue has room and does not hold the task's id yet answers
  -- that id. The task is known as a pending one with the metadata of the request, no other task has
  -- changed, the function waits with the arguments, the priority, the timeout and the cache options of
  -- the request at its place in the queue, and the bookkeeping and the distinct task ids are kept.
  pub add_queues :
      (name : F → String) (fresh_id : String) (created entered now : ℕ) (r : Request V F A)
      (w : Worker V F A)
      → w.running ≡ true
      → IsValid w.queue
      → Heap.full w.queue.queue ≡ false
      → has_id (id_of fresh_id r) w.queue.queue.items ≡ false
      → IsUnique w.tasks
      → let (w', answer) = add_task name fresh_id created entered now r w in
        let t = id_of fresh_id r in
        (answer ≡ added t)
        × ((info : TaskInfo V) × IsNew t created r.metadata info
            × ((u : String)
                → get_task_info u w' ≡ ite (str_dec u t) (some info) (get_task_info u w)))
        × (Invariant.pending w'.queue ≡ push (item_of name t r w) (Invariant.pending w.queue))
        × IsValid w'.queue
        × IsUnique w'.tasks
  unfolding add_task get_task_info new_task make_item
  add_queues name fresh_id created entered now r w run v room fresh u =
      let t : String = id_of fresh_id r in
      let item = make_item name t r w in
      rw (add_task, run, put-stored entered now item w.queue room)
        (
          refl,
          (
            new_task t created r.metadata,
            (refl, refl, refl, refl, refl, refl, refl, refl, refl, refl),
            λ j. Dict.lookup-insert t j (new_task t created r.metadata) w.tasks,
          ),
          pending-stored entered now item w.queue v fresh,
          stored-IsValid entered now item w.queue v fresh,
          insert-IsUnique t (new_task t created r.metadata) w.tasks u,
        )

  pub on_task_completed-some :
      (now : ℕ) (t : String) (result : V) (c : Bool) (w : Worker V F A) (info : TaskInfo V)
      → Dict.lookup t w.tasks ≡ some info
      → (Dict.lookup t (on_task_completed now t result c w).tasks
          ≡ some (mark_completed now result (record info { from_cache = c })))
        × ((on_task_completed now t result c w).future_manager
            ≡ Futures.complete_from_result t result w.future_manager)
  unfolding on_task_completed
  on_task_completed-some now t result c w info h =
      rw (on_task_completed, h)
        (
          Dict.lookup-insert t t (mark_completed now result (record info { from_cache = c }))
                w.tasks
              ∙ ground arith,
          refl,
        )

  -- When a task that has not ended is reported complete, it has the status `completed`, the result
  -- and the mark of the cache that were reported, and its future is resolved with that result, if
  -- it was open.
  pub completion_resolves :
      (now : ℕ) (t : String) (result : V) (from_cache : Bool) (w : Worker V F A) (info : TaskInfo V)
      → get_task_info t w ≡ some info
      → is_terminal_state info ≡ false
      → let w' = on_task_completed now t result from_cache w in
        ((i : TaskInfo V) × (get_task_info t w' ≡ some i)
          × (i.status ≡ completed)
          × (i.result ≡ some result)
          × (i.from_cache ≡ from_cache))
        × ((a : ℕ)
            → find_open t w.future_manager ≡ some a
            → at w'.future_manager.store a ≡ some (resolved result))
  unfolding get_task_info
  completion_resolves now t result from_cache w info h s =
      let (known, futures) = on_task_completed-some now t result from_cache w info h in
      (
        (let (done, given, cached) = completed_early now result from_cache info s in
            (_, known, done, given, cached)),
        λ a k. rw futures (complete_from_result-at t result w.future_manager a k),
      )

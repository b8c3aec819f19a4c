-- ===== src/Worker/Serve.antt =====
-- src/async_task_worker/pool.py: some iterations of `_worker_loop` in a row, while no other task calls
-- the worker, and what they keep.
use async_task_worker.Base.{
  ℕ, zero, suc, ◌+◌, ◌≡◌, ◌≢◌, refl, ap, String, Bool, true, List, [], ◌∷◌, arith, length,
}
use async_task_worker.Executor.{done, not_coroutine, call_raised, fails}
use async_task_worker.Queue.{TaskQueue, Got, got, waits, value_error}
use async_task_worker.Queue.Heap.{Item}
use async_task_worker.Queue.Invariant.{IsValid}
use async_task_worker.Queue.Refinement.{Answers}
use async_task_worker.Pool
use async_task_worker.Worker.{
  Worker, on_task_completed, on_task_started, on_task_failed, on_task_cancelled,
}
use async_task_worker.Worker.Process.{
  Ended, outcome, cancelled_error, process_begin, process_end, report,
}
use async_task_worker.Worker.Loop.{
  Phase, waiting, taken, processing, stopped, next_task, finish_task,
}
use async_task_worker.Worker.Owes.{Owes}
use async_task_worker.Worker.Owed.{completed-queue}

module _ {J : Type 0} where
  pub Answers-nil :
      (g : Got J) (left : List (Item J)) → Answers [] g left → (g ≡ waits) × (left ≡ [])
  Answers-nil (got x) left h = absurd h
  Answers-nil waits left h = (refl, h)
  Answers-nil value_error left h = absurd h

  pub Answers-cons :
      (x : Item J) (xs : List (Item J)) (g : Got J) (left : List (Item J))
      → Answers (x ∷ xs) g left
      → (g ≡ got x) × (left ≡ xs)
  Answers-cons x xs (got y) left h = (ap got h.0, h.1)
  Answers-cons x xs waits left h = absurd h
  Answers-cons x xs value_error left h = absurd h

  -- The queue stays valid when the `task_done` of its last task is counted.
  pub counted-IsValid :
      (k : ℕ) (q : TaskQueue J)
      → IsValid q
      → IsValid
          (record q { queue = record q.queue { unfinished_tasks = length q.queue.items + k } })
  counted-IsValid k q v = record {
    distinct = v.distinct;
    sorted = v.sorted;
    queued = v.queued;
    cancelled = v.cancelled;
    timed = v.timed;
    size = v.size;
    unfinished = omega arith;
  }

module _ {V F A : Type 0} where
  -- The completion callback that the execution calls before it ends.
  unfoldable pub executed : ℕ → String → Bool → Ended V → Worker V F A → Worker V F A
  executed now t from_cache (outcome (done v)) w = on_task_completed now t v from_cache w
  executed now t from_cache (outcome (not_coroutine message)) w = w
  executed now t from_cache (outcome (call_raised message)) w = w
  executed now t from_cache (outcome (fails e)) w = w
  executed now t from_cache cancelled_error w = w

  -- The next iterations, after a task was run; a loop that has ended runs none.
  unfoldable pub go_on :
      (Worker V F A → Worker V F A × List String)
      → String
      → Worker V F A
      → Phase
      → Worker V F A × List String
  go_on again t w waiting = let (w', ids) = again w in (w', t ∷ ids)
  go_on again t w (taken u) = (w, t ∷ [])
  go_on again t w (processing u) = (w, t ∷ [])
  go_on again t w stopped = (w, t ∷ [])

  -- The rest of an iteration.
  unfoldable pub run_task :
      (Worker V F A → Worker V F A × List String)
      → ℕ
      → (String → Ended V × Bool)
      → Worker V F A
      → Phase
      → Worker V F A × List String
  unfolding go_on executed process_begin
  run_task again now run w waiting = (w, [])
  run_task again now run w stopped = (w, [])
  run_task again now run w (processing t) = (w, [])
  run_task again now run w (taken t) =
      let w1 = executed now t (run t).1 (run t).0 (process_begin now t w) in
      let (w', phase) = finish_task now t (run t).0 w1 in go_on again t w' phase

  -- Some iterations of a worker loop, until it finds no task: `run` says how the execution of a task
  -- ends and whether its result is from the cache, and `tick` is the clock. The ids are those of the tasks that were run.
  unfoldable pub serve :
      ℕ → (ℕ → ℕ) → (String → Ended V × Bool) → Worker V F A → Worker V F A × List String
  unfolding run_task
  serve zero tick run w = (w, [])
  serve (suc n) tick run w =
      let (w', phase) = next_task (tick n) (tick n) w in
      run_task (serve n tick run) (tick n) run w' phase

  -- The pool runs on.
  pub begin-running :
      (now : ℕ) (t : String) (w : Worker V F A)
      → (process_begin now t w).worker_pool.running ≡ w.worker_pool.running
  unfolding process_begin on_task_started Pool.register
  begin-running now t w = ground arith

  pub executed-running :
      (now : ℕ) (t : String) (from_cache : Bool) (e : Ended V) (w : Worker V F A)
      → (executed now t from_cache e w).worker_pool.running ≡ w.worker_pool.running
  unfolding executed on_task_completed
  executed-running now t from_cache (outcome (done v)) w = ground arith
  executed-running now t from_cache (outcome (not_coroutine message)) w = refl
  executed-running now t from_cache (outcome (call_raised message)) w = refl
  executed-running now t from_cache (outcome (fails e)) w = refl
  executed-running now t from_cache cancelled_error w = refl

  pub executed-queue :
      (now : ℕ) (t : String) (from_cache : Bool) (e : Ended V) (w : Worker V F A)
      → (executed now t from_cache e w).queue ≡ w.queue
  unfolding executed
  executed-queue now t from_cache (outcome (done v)) w = completed-queue now t v from_cache w
  executed-queue now t from_cache (outcome (not_coroutine message)) w = refl
  executed-queue now t from_cache (outcome (call_raised message)) w = refl
  executed-queue now t from_cache (outcome (fails e)) w = refl
  executed-queue now t from_cache cancelled_error w = refl

  pub end-running :
      (now : ℕ) (t : String) (e : Ended V) (w : Worker V F A)
      → (process_end now t e w).0.worker_pool.running ≡ w.worker_pool.running
  unfolding process_end report on_task_failed on_task_cancelled Pool.unregister
  end-running now t e w = ground arith

  pub end-goes_on :
      (now : ℕ) (t : String) (e : Ended V) (w : Worker V F A)
      → e ≢ cancelled_error
      → (process_end now t e w).1 ≡ true
  unfolding process_end report
  end-goes_on now t (outcome (done v)) w h = refl
  end-goes_on now t (outcome (not_coroutine message)) w h = refl
  end-goes_on now t (outcome (call_raised message)) w h = refl
  end-goes_on now t (outcome (fails e)) w h = refl
  end-goes_on now t cancelled_error w h = absurd (h refl)

  -- The loop may serve: the queue is valid and owes `k` calls of `task_done` besides its items, and
  -- the pool runs.
  pub record Serves (k : ℕ) (w : Worker V F A) : Type 0 where
    pub valid : IsValid w.queue
    pub owes : Owes w.queue k
    pub running : w.worker_pool.running ≡ true

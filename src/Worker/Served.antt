-- ===== src/Worker/Served.antt =====
-- src/async_task_worker/pool.py: some iterations of `_worker_loop` in a row, while no other task calls
-- the worker.
use async_task_worker.Base.{
  ℕ, zero, suc, ◌≤◌, ◌≡◌, ◌≢◌, refl, ap, ◌∙◌, String, Bool, true, List, [], ◌∷◌, arith, length, map,
}
use mathlib.Core.Path.{subst}
use async_task_worker.Queue
use async_task_worker.Queue.{TaskQueue, Got, got, waits, value_error}
use async_task_worker.Queue.Heap.{Item}
use async_task_worker.Queue.Invariant.{IsValid, pending}
use async_task_worker.Queue.Refinement.{Answers, get-Answers}
use async_task_worker.Worker.{Worker, Job}
use async_task_worker.Worker.Process.{Ended, cancelled_error, process_begin, process_end}
use async_task_worker.Worker.Loop.{waiting, taken, next_task, take_task, finish_task}
use async_task_worker.Worker.Owes.{Owes, OwesAfter, get-OwesAfter}
use async_task_worker.Worker.Owed.{process_begin-queue, process_end-queue, next_task-on}
use async_task_worker.Worker.Lost.{finish_task-owed}
use async_task_worker.Worker.Serve.{
  Answers-nil, Answers-cons, counted-IsValid, executed, go_on, run_task, serve, begin-running,
  executed-running, executed-queue, end-running, end-goes_on, Serves,
}

module _ {V F A : Type 0} where
  -- The end of an iteration keeps this, and the waiting tasks.
  finish-Serves :
      (now k : ℕ) (t : String) (e : Ended V) (w : Worker V F A)
      → e ≢ cancelled_error
      → Serves (suc k) w
      → Serves k (finish_task now t e w).0
        × (pending (finish_task now t e w).0.queue ≡ pending w.queue)
        × ((finish_task now t e w).1 ≡ waiting)
  finish-Serves now k t e w d s =
      let w' = (process_end now t e w).0 in
      let same : w'.queue ≡ w.queue = process_end-queue now t e w in
      rw (finish_task-owed now k t e w s.owes) (
        record {
          valid = counted-IsValid k w'.queue (rw same s.valid);
          owes = refl;
          running = end-running now t e w ∙ s.running;
        },
        ap pending same,
        rw (end-goes_on now t e w d) refl,
      )

  executed-Serves :
      (now k : ℕ) (t : String) (from_cache : Bool) (e : Ended V) (w : Worker V F A)
      → Serves k w
      → Serves k (executed now t from_cache e w)
  executed-Serves now k t from_cache e w s = record {
    valid = rw (executed-queue now t from_cache e w) s.valid;
    owes = rw (executed-queue now t from_cache e w) s.owes;
    running = executed-running now t from_cache e w ∙ s.running;
  }

  begin-Serves :
      (now k : ℕ) (t : String) (w : Worker V F A) → Serves k w → Serves k (process_begin now t w)
  begin-Serves now k t w s = record {
    valid = rw (process_begin-queue now t w) s.valid;
    owes = rw (process_begin-queue now t w) s.owes;
    running = begin-running now t w ∙ s.running;
  }

  task-Serves :
      (now k : ℕ) (t : String) (from_cache : Bool) (e : Ended V) (w : Worker V F A)
      → e ≢ cancelled_error
      → Serves (suc k) w
      → let r = finish_task now t e (executed now t from_cache e (process_begin now t w)) in
        Serves k r.0 × (pending r.0.queue ≡ pending w.queue) × (r.1 ≡ waiting)
  task-Serves now k t from_cache e w d s =
      let w1 = process_begin now t w in
      let s2 = executed-Serves now (suc k) t from_cache e w1 (begin-Serves now (suc k) t w s) in
      let (served, kept, phase) = finish-Serves now k t e (executed now t from_cache e w1) d s2 in
      (
        served,
        kept ∙ ap pending (executed-queue now t from_cache e w1 ∙ process_begin-queue now t w),
        phase,
      )

  -- What the queue leaves of the worker after `get`.
  abbrev got_from : ℕ → Worker V F A → Worker V F A
  got_from now w = record w { queue = (Queue.get now now w.queue).0 }

  next-got :
      (now k : ℕ) (x : Item (Job F A)) (xs : List (Item (Job F A))) (w : Worker V F A)
      → Serves k w
      → pending w.queue ≡ x ∷ xs
      → (next_task now now w ≡ (got_from now w, taken x.task_id))
        × Serves (suc k) (got_from now w)
        × (pending (got_from now w).queue ≡ xs)
  unfolding take_task
  next-got now k x xs w s h =
      let (valid, ans) = get-Answers now now w.queue s.valid in
      let (e, left) =
        Answers-cons x xs (Queue.get now now w.queue).1 (pending (got_from now w).queue) (
          subst (λ l. Answers l (Queue.get now now w.queue).1 (pending (got_from now w).queue)) h
            ans) in
      (
        next_task-on now now w s.running ∙ ap (take_task (got_from now w)) e,
        record {
          valid = valid;
          owes =
              subst (λ g. OwesAfter g (got_from now w).queue k) e
                (get-OwesAfter now now k w.queue s.owes);
          running = s.running;
        },
        left,
      )

  next-waits :
      (now k : ℕ) (w : Worker V F A)
      → Serves k w
      → pending w.queue ≡ []
      → (next_task now now w ≡ (got_from now w, waiting)) × (pending (got_from now w).queue ≡ [])
  unfolding take_task
  next-waits now k w s h =
      let (valid, ans) = get-Answers now now w.queue s.valid in
      let (e, left) = Answers-nil (Queue.get now now w.queue).1 (pending (got_from now w).queue) (
        subst (λ l. Answers l (Queue.get now now w.queue).1 (pending (got_from now w).queue)) h
          ans) in
      (next_task-on now now w s.running ∙ ap (take_task (got_from now w)) e, left)

  -- A round of `serve` that finds a task.
  serve-got :
      (n k : ℕ) (tick : ℕ → ℕ) (run : String → Ended V × Bool) (x : Item (Job F A))
      (xs : List (Item (Job F A))) (w : Worker V F A)
      → (run x.task_id).0 ≢ cancelled_error
      → Serves k w
      → pending w.queue ≡ x ∷ xs
      → (w' : Worker V F A) × Serves k w'
        × (pending w'.queue ≡ xs)
        × (serve (suc n) tick run w
            ≡ ((serve n tick run w').0, x.task_id ∷ (serve n tick run w').1))
  unfolding serve run_task go_on
  serve-got n k tick run x xs w d s h =
      let t = x.task_id in
      let (e, s1, left) = next-got (tick n) k x xs w s h in
      let (s2, kept, phase) =
        task-Serves (tick n) k t (run t).1 (run t).0 (got_from (tick n) w) d s1 in
      let r = finish_task (tick n) t (run t).0 (
        executed (tick n) t (run t).1 (run t).0 (process_begin (tick n) t (got_from (tick n) w))) in
      (
        r.0,
        s2,
        kept ∙ left,
        ap (λ p. run_task (serve n tick run) (tick n) run p.0 p.1) e
            ∙ ap (go_on (serve n tick run) t r.0) phase,
      )

  serve_from :
      (n k : ℕ) (tick : ℕ → ℕ) (run : String → Ended V × Bool) (xs : List (Item (Job F A)))
      (w : Worker V F A)
      → ((t : String) → (run t).0 ≢ cancelled_error)
      → Serves k w
      → pending w.queue ≡ xs
      → length xs ≤ n
      → ((serve n tick run w).1 ≡ map (λ x. x.task_id) xs)
        × (pending (serve n tick run w).0.queue ≡ [])
  unfolding serve run_task
  serve_from zero k tick run [] w d s h m = (refl, h)
  serve_from zero k tick run (x ∷ xs) w d s h m = absurd (omega (arith, m))
  serve_from (suc n) k tick run [] w d s h m =
      let (e, left) = next-waits (tick n) k w s h in rw e (refl, left)
  serve_from (suc n) k tick run (x ∷ xs) w d s h m =
      let (w', s', left, e) = serve-got n k tick run x xs w (d x.task_id) s h in
      let (ids, emptied) = serve_from n k tick run xs w' d s' left (omega (arith, m)) in
      rw e (ap (λ is. x.task_id ∷ is) ids, emptied)

  -- While no other task calls the worker, the pool runs and no execution is cancelled before its
  -- first step, a worker loop runs each waiting task once, in the order of the queue, and then finds
  -- the queue empty; as many iterations as there are waiting tasks are enough. The queue must be
  -- valid, and owe one `task_done` for each of its items besides `k` others.
  pub serve_all :
      (n k : ℕ) (tick : ℕ → ℕ) (run : String → Ended V × Bool) (w : Worker V F A)
      → ((t : String) → (run t).0 ≢ cancelled_error)
      → IsValid w.queue
      → Owes w.queue k
      → w.worker_pool.running ≡ true
      → length (pending w.queue) ≤ n
      → ((serve n tick run w).1 ≡ map (λ x. x.task_id) (pending w.queue))
        × (pending (serve n tick run w).0.queue ≡ [])
  serve_all n k tick run w d valid owes running m =
      serve_from n k tick run (pending w.queue) w d
        (record { valid = valid; owes = owes; running = running }) refl m

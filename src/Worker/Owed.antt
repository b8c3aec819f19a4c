-- ===== src/Worker/Owed.antt =====
-- src/async_task_worker/pool.py: each task that a loop got from the queue is answered by one
-- `task_done`.
use async_task_worker.Base.{
  ℕ, suc, ◌+◌, ◌-◌, ◌*◌, ◌≡◌, refl, sym, String, Bool, true, false, Option, none, some, length,
  arith, Bool-cases, Option-cases, inl, inr,
}
use mathlib.Core.Path.{subst}
use async_task_worker.Queue
use async_task_worker.Queue.{TaskQueue, Got, got, waits, value_error, next_valid, deliver}
use async_task_worker.Worker.{
  Worker, Job, Request, add_task, make_item, cancel_begin, cancel_in_pool, cancel_finish,
  on_task_completed, on_task_started, on_task_failed, on_task_cancelled,
}
use async_task_worker.Worker.Maintenance.{cleanup_old_tasks, old_ids, day}
use async_task_worker.Worker.Process.{Ended, process_begin, process_end, report}
use async_task_worker.Worker.Loop.{
  Phase, waiting, taken, processing, get_elem?, take_task, close_task, next_task, finish_task,
  System, Step, fetches, begins, finishes, completes, adds, collides, IsUntied, IsUntiedStep,
  cancels, cancels_in_pool, ends_cancel, cleans, Reach, here, next,
}
use async_task_worker.Worker.Owes.{
  count_processing, weight, count-set, count_pos, all_waiting, count-all_waiting, Owes, OwesAfter,
  get-OwesAfter, remove_task-Owes, clean-Owes, put-Owes, task_done-owed,
}

module _ {V F A : Type 0} where
  pub process_begin-queue :
      (now : ℕ) (t : String) (w : Worker V F A) → (process_begin now t w).queue ≡ w.queue
  unfolding process_begin on_task_started
  process_begin-queue now t w = ground arith

  pub process_end-queue :
      (now : ℕ) (t : String) (e : Ended V) (w : Worker V F A)
      → (process_end now t e w).0.queue ≡ w.queue
  unfolding process_end report on_task_failed on_task_cancelled
  process_end-queue now t e w = ground arith

  pub completed-queue :
      (now : ℕ) (t : String) (v : V) (b : Bool) (w : Worker V F A)
      → (on_task_completed now t v b w).queue ≡ w.queue
  unfolding on_task_completed
  completed-queue now t v b w = ground arith

  cancel_finish-queue :
      (now : ℕ) (t : String) (b : Bool) (w : Worker V F A)
      → (cancel_finish now t b w).0.queue ≡ w.queue
  unfolding cancel_finish
  cancel_finish-queue now t b w = ground arith

  cancel_in_pool-queue : (t : String) (w : Worker V F A) → (cancel_in_pool t w).0.queue ≡ w.queue
  unfolding cancel_in_pool
  cancel_in_pool-queue t w = refl

  cancel_begin-Owes :
      (now k : ℕ) (t : String) (w : Worker V F A)
      → Owes w.queue k
      → Owes (cancel_begin now t w).0.queue k
  unfolding cancel_begin
  cancel_begin-Owes now k t w h = ground (arith, h, remove_task-Owes t k w.queue)

  add_task-Owes :
      (name : F → String) (fresh_id : String) (created entered now k : ℕ) (r : Request V F A)
      (w : Worker V F A)
      → Owes w.queue k
      → Owes (add_task name fresh_id created entered now r w).0.queue k
  unfolding add_task
  add_task-Owes name fresh_id created entered now k r w h =
      let t : String = elim r.task_id [ none ↦ fresh_id | some i ↦ i ] in
      elim (Bool-cases w.running) [
        | inr off ↦ rw (off, add_task) h
        | inl on ↦ elim (Option-cases (Queue.put entered now (make_item name t r w) w.queue)) [
          | inl e ↦ rw (on, e, add_task) h
          | inr (q, e) ↦
              rw (on, e, add_task) (put-Owes entered now k (make_item name t r w) w.queue q h e)
        ]
      ]

  cleanup-Owes :
      (now k : ℕ) (w : Worker V F A) → Owes w.queue k → Owes (cleanup_old_tasks now w).0.queue k
  unfolding cleanup_old_tasks
  cleanup-Owes now k w h = elim (Option-cases w.task_retention_days) [
    | inl e ↦ rw (e, cleanup_old_tasks) h
    | inr (days, e) ↦
        rw (e, cleanup_old_tasks) (clean-Owes (old_ids now (days * day) w.tasks) k w.queue h)
  ]

  take_task-Owes :
      (k : ℕ) (w : Worker V F A) (answer : Got (Job F A))
      → OwesAfter answer w.queue k
      → Owes (take_task w answer).0.queue (k + weight (take_task w answer).1)
  unfolding take_task
  take_task-Owes k w (got item) h = omega (arith, h)
  take_task-Owes k w waits h = omega (arith, h)
  take_task-Owes k w value_error h = absurd h

  pub next_task-on :
      (now later : ℕ) (w : Worker V F A)
      → w.worker_pool.running ≡ true
      → next_task now later w
        ≡ take_task
            (record w { queue = (Queue.get now later w.queue).0 })
            (Queue.get now later w.queue).1
  unfolding next_task
  next_task-on now later w on = ground (arith, on)

  next_task-Owes :
      (now later k : ℕ) (w : Worker V F A)
      → Owes w.queue k
      → Owes (next_task now later w).0.queue (k + weight (next_task now later w).1)
  unfolding next_task
  next_task-Owes now later k w h = elim (Bool-cases w.worker_pool.running) [
    | inr off ↦ rw (off, next_task) (omega (arith, h))
    | inl on ↦
        subst (λ (r : Worker V F A × Phase). Owes r.0.queue (k + weight r.1))
          (sym (next_task-on now later w on))
          (take_task-Owes k (record w { queue = (Queue.get now later w.queue).0 })
            (Queue.get now later w.queue).1 (get-OwesAfter now later k w.queue h))
  ]

  close_task-Owes :
      (k : ℕ) (w : Worker V F A) (goes_on : Bool) (q : TaskQueue (Job F A))
      → Owes q k
      → Owes (close_task w goes_on (some q)).0.queue (k + weight (close_task w goes_on (some q)).1)
  unfolding close_task
  close_task-Owes k w true q h = omega (arith, h)
  close_task-Owes k w false q h = omega (arith, h)

  finish_task-Owes :
      (end k : ℕ) (t : String) (e : Ended V) (w : Worker V F A)
      → Owes w.queue (suc k)
      → Owes (finish_task end t e w).0.queue (k + weight (finish_task end t e w).1)
  unfolding finish_task
  finish_task-Owes end k t e w h =
      let w' = (process_end end t e w).0 in
      let owed : Owes w'.queue (suc k) = rw (process_end-queue end t e w) h in
      rw (task_done-owed k w'.queue owed) (
        close_task-Owes k w' (process_end end t e w).1
          (record w'.queue {
            queue = record w'.queue.queue { unfinished_tasks = length w'.queue.queue.items + k };
          })
          refl)

  -- One `task_done` is owed for each loop that holds a task.
  abbrev pub Balanced : System V F A → Type 0
  Balanced s = Owes s.worker.queue (count_processing s.loops)

  pub Step-Balanced :
      (name : F → String) (s u : System V F A) (st : Step name s u)
      → IsUntiedStep st
      → Balanced s
      → Balanced u
  Step-Balanced name s u (fetches _ i now later h) v b =
      let k = count_processing s.loops in
      let p = (next_task now later s.worker).1 in
      omega (arith, next_task-Owes now later k s.worker b, count-set s.loops i waiting p h)
  Step-Balanced name s u (begins _ i start t h) v b =
      rw (process_begin-queue start t s.worker)
        (omega (arith, b, count-set s.loops i (taken t) (processing t) h))
  Step-Balanced name s u (finishes _ i end t e h) v b =
      let k = count_processing s.loops - 1 in
      let pos = count_pos s.loops i t h in
      let p = (finish_task end t e s.worker).1 in
      omega (
        arith,
        finish_task-Owes end k t e s.worker (omega (arith, pos)),
        count-set s.loops i (processing t) p h,
        pos,
      )
  Step-Balanced name s u (completes _ now t v c) untied b =
      rw (completed-queue now t v c s.worker) b
  Step-Balanced name s u (adds _ fresh_id created entered now r k) v b =
      add_task-Owes name fresh_id created entered now (count_processing s.loops) r s.worker b
  Step-Balanced name s u (collides _ fresh_id created r q on k) v b = absurd v
  Step-Balanced name s u (cancels _ now t) v b =
      cancel_begin-Owes now (count_processing s.loops) t s.worker b
  Step-Balanced name s u (cancels_in_pool _ t) v b = rw (cancel_in_pool-queue t s.worker) b
  Step-Balanced name s u (ends_cancel _ now t found) v b =
      rw (cancel_finish-queue now t found s.worker) b
  Step-Balanced name s u (cleans _ now) v b = cleanup-Owes now (count_processing s.loops) s.worker b

  pub Reach-Balanced_from :
      (name : F → String) {s u : System V F A} (r : Reach name s u)
      → IsUntied r
      → Balanced s
      → Balanced u
  Reach-Balanced_from name here v b = b
  Reach-Balanced_from name (next {t = t} {u = u} r st) (v, last) b =
      Step-Balanced name t u st last (Reach-Balanced_from name r v b)

  start-Balanced :
      (w : Worker V F A) (n : ℕ) (max_size : Option ℕ)
      → w.queue ≡ Queue.init max_size
      → Balanced (record { worker = w; loops = all_waiting n })
  unfolding Queue.init
  start-Balanced w n max_size e = rw e (omega (arith, count-all_waiting n))

  -- In every state that the loops and the calls of other tasks reach from a new queue, where no task was
  -- added whose priority and id a task of the queue had, and a loop awaits an execution: the queue owes one `task_done` for each of its items and each loop that holds a
  -- task, so the loop's `task_done` raises nothing, and leaves one less owed.
  pub task_done_allowed :
      (name : F → String) (w : Worker V F A) (n : ℕ) (max_size : Option ℕ) (u : System V F A)
      (i : ℕ) (t : String)
      → w.queue ≡ Queue.init max_size
      → (r : Reach name (record { worker = w; loops = all_waiting n }) u) → IsUntied r
      → get_elem? u.loops i ≡ some (processing t)
      → Owes u.worker.queue (count_processing u.loops)
        × (q : TaskQueue (Job F A)) × (Queue.task_done u.worker.queue ≡ some q)
        × Owes q (count_processing u.loops - 1)
  task_done_allowed name w n max_size u i t e r v h =
      let b = Reach-Balanced_from name r v (start-Balanced w n max_size e) in
      let k = count_processing u.loops - 1 in
      let owed : Owes u.worker.queue (suc k) = omega (arith, b, count_pos u.loops i t h) in
      (
        b,
        record u.worker.queue {
          queue = record u.worker.queue.queue {
            unfinished_tasks = length u.worker.queue.queue.items + k;
          };
        },
        task_done-owed k u.worker.queue owed,
        refl,
      )

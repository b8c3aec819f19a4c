-- ===== src/Worker/Lost.antt =====
-- src/async_task_worker/pool.py: a worker loop that ends while the pool runs.
use async_task_worker.Base.{
  ℕ, zero, suc, ◌+◌, ◌-◌, ◌≡◌, ◌≢◌, refl, sym, ap, ◌∙◌, String, some, List, [], ◌∷◌, arith, length,
  if◌then◌else◌,
}
use async_task_worker.Pool
use async_task_worker.Worker.{Worker, on_task_cancelled}
use async_task_worker.Worker.Process.{Ended, cancelled_error, process_end, report}
use async_task_worker.Worker.Waits.{set}
use async_task_worker.Worker.Loop.{
  Phase, waiting, taken, processing, stopped, get_elem?, finish_task, close_task, System, Step,
  fetches, begins, finishes, completes, adds, collides, cancels, cancels_in_pool, ends_cancel,
  cleans, Reach, here, next,
}
use async_task_worker.Worker.Owes.{Owes, count_processing, count_pos, task_done-owed}
use async_task_worker.Worker.Owed.{Balanced, process_end-queue}

-- A write at another place leaves an ended loop ended.
stopped-set :
    (ps : List Phase) (i j : ℕ) (old p : Phase)
    → get_elem? ps i ≡ some old
    → old ≢ stopped
    → get_elem? ps j ≡ some stopped
    → get_elem? (set ps i p) j ≡ some stopped
unfolding set
stopped-set [] i j old p h d e = cc
stopped-set (x ∷ ps) zero zero old p h d e = absurd (d (some_inj (sym h ∙ e)))
  where
    some_inj : {a b : Phase} → some a ≡ some b → a ≡ b
    some_inj q = cc
stopped-set (x ∷ ps) zero (suc j) old p h d e = e
stopped-set (x ∷ ps) (suc i) zero old p h d e = e
stopped-set (x ∷ ps) (suc i) (suc j) old p h d e = stopped-set ps i j old p h d e

get_elem?-set :
    (ps : List Phase) (i : ℕ) (old p : Phase)
    → get_elem? ps i ≡ some old
    → get_elem? (set ps i p) i ≡ some p
unfolding set
get_elem?-set [] i old p h = cc
get_elem?-set (x ∷ ps) zero old p h = refl
get_elem?-set (x ∷ ps) (suc i) old p h = get_elem?-set ps i old p h

module _ {V F A : Type 0} where
  -- The end of an iteration whose `task_done` the queue owes.
  pub finish_task-owed :
      (end k : ℕ) (t : String) (e : Ended V) (w : Worker V F A)
      → Owes w.queue (suc k)
      → finish_task end t e w ≡ (
        record (process_end end t e w).0 {
          queue = record (process_end end t e w).0.queue {
            queue = record (process_end end t e w).0.queue.queue {
              unfinished_tasks = length (process_end end t e w).0.queue.queue.items + k;
            };
          };
        },
        if (process_end end t e w).1 then waiting else stopped,
      )
  unfolding finish_task close_task
  finish_task-owed end k t e w h =
      let w' = (process_end end t e w).0 in
      let owed : Owes w'.queue (suc k) = rw (process_end-queue end t e w) h in
      ap (close_task w' (process_end end t e w).1) (task_done-owed k w'.queue owed)

  cancelled-pool :
      (now : ℕ) (t reason : String) (w : Worker V F A)
      → (on_task_cancelled now t reason w).worker_pool ≡ w.worker_pool
  unfolding on_task_cancelled
  cancelled-pool now t reason w = ground arith

  finish-cancelled :
      (end k : ℕ) (t : String) (w : Worker V F A)
      → Owes w.queue (suc k)
      → ((finish_task end t cancelled_error w).1 ≡ stopped)
        × ((finish_task end t cancelled_error w).0.worker_pool ≡ Pool.unregister t w.worker_pool)
  unfolding process_end report
  finish-cancelled end k t w h =
      rw (finish_task-owed end k t cancelled_error w h)
        (refl, ap (Pool.unregister t) (cancelled-pool end t "Task cancelled during execution" w))

  -- The end of an iteration in which the execution was cancelled.
  abbrev pub cancelled_step : ℕ → String → ℕ → System V F A → System V F A
  cancelled_step end t i s = record {
    worker = (finish_task end t cancelled_error s.worker).0;
    loops = set s.loops i (finish_task end t cancelled_error s.worker).1;
  }

module _ {V F A : Type 0} (name : F → String) where
  Step-stopped :
      (s u : System V F A) (j : ℕ)
      → Step name s u
      → get_elem? s.loops j ≡ some stopped
      → get_elem? u.loops j ≡ some stopped
  Step-stopped s u j (fetches _ i now later h) e = stopped-set s.loops i j waiting _ h (λ q. cc) e
  Step-stopped s u j (begins _ i start t h) e = stopped-set s.loops i j (taken t) _ h (λ q. cc) e
  Step-stopped s u j (finishes _ i end t o h) e =
      stopped-set s.loops i j (processing t) _ h (λ q. cc) e
  Step-stopped s u j (completes _ now t v c) e = e
  Step-stopped s u j (adds _ fresh_id created entered now r k) e = e
  Step-stopped s u j (collides _ fresh_id created r q on k) e = e
  Step-stopped s u j (cancels _ now t) e = e
  Step-stopped s u j (cancels_in_pool _ t) e = e
  Step-stopped s u j (ends_cancel _ now t found) e = e
  Step-stopped s u j (cleans _ now) e = e

  Reach-stopped :
      {s u : System V F A} (j : ℕ)
      → Reach name s u
      → get_elem? s.loops j ≡ some stopped
      → get_elem? u.loops j ≡ some stopped
  Reach-stopped j here e = e
  Reach-stopped j (next {t = t} {u = u} r st) e = Step-stopped t u j st (Reach-stopped j r e)

  -- Where the queue owes a `task_done` for each of its items and each loop that holds a task, a worker loop
  -- whose execution is cancelled before its first step ends, though `running` and the number of
  -- workers of the pool stay as they are; and it stays ended in every state that is reached from there.
  pub lost_worker :
      (s u : System V F A) (i end : ℕ) (t : String)
      → Balanced s
      → get_elem? s.loops i ≡ some (processing t)
      → Reach name (cancelled_step end t i s) u
      → ((cancelled_step end t i s).worker.worker_pool.running ≡ s.worker.worker_pool.running)
        × (Pool.worker_count (cancelled_step end t i s).worker.worker_pool
            ≡ Pool.worker_count s.worker.worker_pool)
        × (get_elem? u.loops i ≡ some stopped)
  unfolding Pool.unregister Pool.worker_count
  lost_worker s u i end t b h r =
      let k = count_processing s.loops - 1 in
      let owed : Owes s.worker.queue (suc k) = omega (arith, b, count_pos s.loops i t h) in
      let (ends, pool) = finish-cancelled end k t s.worker owed in
      (
        ap (λ p. p.running) pool,
        ap (λ p. p.workers) pool,
        Reach-stopped i r (
            get_elem?-set s.loops i (processing t) (finish_task end t cancelled_error s.worker).1 h
            ∙ ap some ends),
      )

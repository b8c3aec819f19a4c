-- ===== src/Queue/Stats.antt =====
-- `QueueStats` of src/async_task_worker/queue.py under every operation of `TaskQueue`.
use async_task_worker.Base.{
  ℕ, ◌≤◌, String, ◌≡◌, refl, Bool, Option, none, some, List, [], ◌∷◌, ◌++◌, arith, length,
  length-append, Bool-cases, ℕ-cases, inl, inr, ltb,
}
use async_task_worker.Base.Dict.{contains}
use async_task_worker.Base.Int.{ℤ, pos, ◌-ℤ◌, ◌≤ℤ◌, -ℤ_parts}
use async_task_worker.Queue.{
  Quotient, QueueStats, wait_time_window, update_enqueue, update_dequeue, slide, sum, TaskQueue,
  init, put, get, next_valid, task_done, remove_task, clean_cancelled_tasks, forget, clear_tracking,
}
use async_task_worker.Queue.Heap
use async_task_worker.Queue.Heap.{Item}

-- The mean of the recorded wait times, and 0 where there is none.
abbrev pub mean : List ℤ → Quotient
mean [] = record { numerator = pos 0; denominator = 1 }
mean (w ∷ ws) = record { numerator = sum (w ∷ ws); denominator = length (w ∷ ws) }

pub record IsAccurate (s : QueueStats) : Type 0 where
  pub window : length s.wait_times ≤ wait_time_window
  pub average : s.avg_wait_time ≡ mean s.wait_times
  pub peak : s.queue_size ≤ℤ s.peak_queue_size

slide-length :
    (ws : List ℤ) (w : ℤ)
    → length ws ≤ wait_time_window
    → (v : ℤ) × (vs : List ℤ) × (slide ws w ≡ v ∷ vs) × (length (v ∷ vs) ≤ wait_time_window)
unfolding slide
slide-length [] w h = (w, [], refl, omega arith)
slide-length (v ∷ []) w h = (v, w ∷ [], refl, omega arith)
slide-length (v ∷ u ∷ us) w h = elim (Bool-cases (ltb_window (v ∷ u ∷ us))) [
  | inl e ↦ (u, us ++ w ∷ [], ground (arith, e), omega (arith, length-append us (w ∷ []), h))
  | inr e ↦ (v, u ∷ us ++ w ∷ [], ground (arith, e), ground (arith, e))
]
  where
    ltb_window : List ℤ → Bool
    ltb_window ws = ltb wait_time_window (length (ws ++ w ∷ []))

update_enqueue-IsAccurate :
    (now : ℕ) (s : QueueStats) → IsAccurate s → IsAccurate (update_enqueue now s)
unfolding update_enqueue
update_enqueue-IsAccurate now s a = record {
  window = a.window;
  average = a.average;
  peak = ground (arith, a.peak);
}

lower-IsAccurate :
    (s : QueueStats) → IsAccurate s → IsAccurate (record s { queue_size = s.queue_size -ℤ pos 1 })
lower-IsAccurate s a = record {
  window = a.window;
  average = a.average;
  peak = omega (arith, -ℤ_parts s.queue_size (pos 1), a.peak);
}

update_dequeue-IsAccurate :
    (now : ℕ) (wait : Option ℤ) (s : QueueStats)
    → IsAccurate s
    → IsAccurate (update_dequeue now wait s)
unfolding update_dequeue
update_dequeue-IsAccurate now none s a = record {
  window = a.window;
  average = a.average;
  peak = (lower-IsAccurate s a).peak;
}
update_dequeue-IsAccurate now (some w) s a =
    let (v, vs, e, h) = slide-length s.wait_times w a.window in
    record { window = rw e h; average = rw e refl; peak = (lower-IsAccurate s a).peak }

module _ {J : Type 0} where
  -- One call of an operation of the queue, or the release of a worker by `task_done`.
  pub data Step : TaskQueue J → TaskQueue J → Type 0 where
    puts :
        {q q' : TaskQueue J} (entry_time now : ℕ) (item : Item J)
        → put entry_time now item q ≡ some q'
        → Step q q'
    gets : {q q' : TaskQueue J} (now later : ℕ) → (get now later q).0 ≡ q' → Step q q'
    done : {q q' : TaskQueue J} → task_done q ≡ some q' → Step q q'
    removes : {q q' : TaskQueue J} (t : String) → (remove_task t q).0 ≡ q' → Step q q'
    cleans : {q q' : TaskQueue J} (ts : List String) → clean_cancelled_tasks ts q ≡ q' → Step q q'
    clears : {q q' : TaskQueue J} → clear_tracking q ≡ q' → Step q q'

  pub data Reach (s : TaskQueue J) : TaskQueue J → Type 0 where
    here : Reach s s
    next : {q q' : TaskQueue J} → Reach s q → Step q q' → Reach s q'

  put_stats :
      (entry_time now : ℕ) (item : Item J) (q : TaskQueue J) {q' : TaskQueue J}
      → put entry_time now item q ≡ some q'
      → q'.stats ≡ update_enqueue now q.stats
  unfolding put
  put_stats entry_time now item q e = ground arith

  task_done_stats :
      (q : TaskQueue J) {q' : TaskQueue J} → task_done q ≡ some q' → q'.stats ≡ q.stats
  unfolding task_done
  task_done_stats q e = ground arith

  remove_task-IsAccurate :
      (t : String) (q : TaskQueue J) → IsAccurate q.stats → IsAccurate (remove_task t q).0.stats
  unfolding remove_task
  remove_task-IsAccurate t q a = elim (Bool-cases (contains t q.queued_task_ids)) [
    | inl h ↦ rw (h, remove_task) (lower-IsAccurate q.stats a)
    | inr h ↦ rw (h, remove_task) a
  ]

  next_valid-IsAccurate :
      (now later : ℕ) (xs : List (Item J)) (q : TaskQueue J)
      → IsAccurate q.stats
      → IsAccurate (next_valid now later xs q).0.stats
  unfolding next_valid Heap.task_done
  next_valid-IsAccurate now later [] q a = a
  next_valid-IsAccurate now later (x ∷ xs) q a =
      elim (Bool-cases (contains x.task_id q.cancelled_task_ids)) [
        | inl h ↦ elim (ℕ-cases q.queue.unfinished_tasks) [
          | inl u ↦ rw (h, next_valid, u) a
          | inr (n, u) ↦ rw (h, next_valid, u) (next_valid-IsAccurate now later xs _ a)
        ]
        | inr h ↦ rw (h, next_valid) (update_dequeue-IsAccurate later _ q.stats a)
      ]

  clean_stats : (ts : List String) (q : TaskQueue J) → (clean_cancelled_tasks ts q).stats ≡ q.stats
  unfolding clean_cancelled_tasks
  clean_stats [] q = refl
  clean_stats (t ∷ ts) q = clean_stats ts (forget t q)

  Step-IsAccurate : {q q' : TaskQueue J} → Step q q' → IsAccurate q.stats → IsAccurate q'.stats
  unfolding get clear_tracking
  Step-IsAccurate {q} (puts entry_time now item e) a =
      rw (put_stats entry_time now item q e) (update_enqueue-IsAccurate now q.stats a)
  Step-IsAccurate {q} (gets now later e) a =
      rw (← e) (next_valid-IsAccurate now later q.queue.items q a)
  Step-IsAccurate {q} (done e) a = rw (task_done_stats q e) a
  Step-IsAccurate {q} (removes t e) a = rw (← e) (remove_task-IsAccurate t q a)
  Step-IsAccurate {q} (cleans ts e) a = rw (← e) (rw (clean_stats ts q) a)
  Step-IsAccurate {q} (clears e) a = rw (← e) a

  -- After any operations on a new queue the window holds at most 100 wait times, the average is
  -- their mean, and the peak is at least the size.
  pub Reach-stats :
      (max_size : Option ℕ) {q : TaskQueue J} → Reach (init max_size) q → IsAccurate q.stats
  unfolding init
  Reach-stats max_size here = record { window = omega arith; average = refl; peak = omega arith }
  Reach-stats max_size (next r s) = Step-IsAccurate s (Reach-stats max_size r)

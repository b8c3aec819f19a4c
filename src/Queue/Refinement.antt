-- ===== src/Queue/Refinement.antt =====
-- `TaskQueue` of src/async_task_worker/queue.py against its specification: a list of waiting tasks
-- in order, from which a cancelled task is gone at once.
use async_task_worker.Base.{
  ℕ, suc, ◌-◌, String, ◌≡◌, refl, true, false, some, List, [], ◌∷◌, arith, Bool-cases, inl, inr,
  sym,
}
use async_task_worker.Base.Dict
use async_task_worker.Base.Dict.{contains}
use async_task_worker.Base.Int.{◌-ℤ◌}
use async_task_worker.Queue.{TaskQueue, Got, got, waits, put, get, next_valid, deliver, remove_task}
use async_task_worker.Queue.Heap
use async_task_worker.Queue.Heap.{Item, push, has_id}
use async_task_worker.Queue.Live.{live, without, has_id-live, live-delete, live-add, without_absent}
use async_task_worker.Queue.Invariant.{
  Tracks, IsValid, pending, stored, put-stored, stored-IsValid, pending-stored, removed-IsValid,
}

-- What the specification lets `get` answer, and the waiting tasks that it leaves.
abbrev pub Answers : {J : Type 0} → List (Item J) → Got J → List (Item J) → Type 0
Answers [] waits left = left ≡ []
Answers (x ∷ xs) (got y) left = (y ≡ x) × (left ≡ xs)
Answers _ _ _ = ⊥

module _ {J : Type 0} where
  -- A `put` with a task id that the queue does not hold puts the task at its place among the
  -- waiting ones, and keeps the bookkeeping valid, if the queue is not full.
  pub put_refines :
      (entry_time now : ℕ) (item : Item J) (q : TaskQueue J)
      → IsValid q
      → Heap.full q.queue ≡ false
      → has_id item.task_id q.queue.items ≡ false
      → (q' : TaskQueue J) × (put entry_time now item q ≡ some q')
        × IsValid q'
        × (pending q' ≡ push item (pending q))
  put_refines entry_time now item q v room fresh = (
    stored entry_time now item q,
    put-stored entry_time now item q room,
    stored-IsValid entry_time now item q v fresh,
    pending-stored entry_time now item q v fresh,
  )

  -- `remove_task` drops the task from the waiting ones, answers whether it was among them, and
  -- keeps the bookkeeping valid.
  pub remove_task_refines :
      (t : String) (q : TaskQueue J)
      → IsValid q
      → IsValid (remove_task t q).0
        × (pending (remove_task t q).0 ≡ without t (pending q))
        × ((remove_task t q).1 ≡ has_id t (pending q))
  unfolding remove_task
  remove_task_refines t q v = elim (Bool-cases (contains t q.queued_task_ids)) [
    | inl h ↦
        rw (h, remove_task)
          (
            removed-IsValid t q v h,
            live-add q.cancelled_task_ids t q.queue.items,
            ground (arith, v.queued t),
          )
    | inr h ↦
        rw (h, remove_task)
          (
            v,
            sym (without_absent t (pending q) (ground (arith, v.queued t))),
            ground (arith, v.queued t),
          )
  ]

  -- An item whose task was cancelled is dropped, and its mark with it.
  skip-Tracks :
      (x : Item J) (xs : List (Item J)) (n : ℕ) (q : TaskQueue J)
      → Tracks (x ∷ xs) q
      → contains x.task_id q.cancelled_task_ids ≡ true
      → q.queue.unfinished_tasks ≡ suc n
      → Tracks xs (record q {
        queue = record q.queue { items = xs; unfinished_tasks = n };
        cancelled_task_ids = Dict.delete x.task_id q.cancelled_task_ids;
      })
  unfolding live
  skip-Tracks x xs n q v h u = record {
    distinct = v.distinct.1;
    sorted = v.sorted.1;
    queued = λ t. rw e (ground (arith, v.queued t));
    cancelled =
        λ t k. ground (arith, v.cancelled t, Dict.lookup-delete x.task_id t q.cancelled_task_ids);
    timed = v.timed;
    size = rw e (ground (arith, v.size));
    unfinished = omega (arith, v.unfinished);
  }
    where
      e : live (Dict.delete x.task_id q.cancelled_task_ids) xs ≡ live q.cancelled_task_ids xs
      e = live-delete q.cancelled_task_ids x.task_id xs v.distinct.0

  deliver-Tracks :
      (now later : ℕ) (x : Item J) (xs : List (Item J)) (q : TaskQueue J)
      → Tracks (x ∷ xs) q
      → contains x.task_id q.cancelled_task_ids ≡ false
      → Tracks xs (deliver now later x (record q { queue = record q.queue { items = xs } }))
  unfolding deliver live ◌-ℤ◌
  deliver-Tracks now later x xs q v h = record {
    distinct = v.distinct.1;
    sorted = v.sorted.1;
    queued = λ t. ground (
      arith,
      v.queued t,
      Dict.lookup-delete x.task_id t q.queued_task_ids,
      has_id-live x.task_id q.cancelled_task_ids xs,
      v.distinct.0,
    );
    cancelled = λ t k. ground (arith, v.cancelled t);
    timed = λ t. ground (
      arith,
      v.timed t,
      Dict.lookup-delete x.task_id t q.queued_task_ids,
      Dict.lookup-delete x.task_id t q.task_entry_times,
    );
    size = ground (arith, v.size);
    unfinished = omega (arith, v.unfinished);
  }

  next_valid-Answers :
      (now later : ℕ) (xs : List (Item J)) (q : TaskQueue J)
      → q.queue.items ≡ xs
      → Tracks xs q
      → IsValid (next_valid now later xs q).0
        × Answers
            (live q.cancelled_task_ids xs)
            (next_valid now later xs q).1
            (pending (next_valid now later xs q).0)
  unfolding next_valid live Heap.task_done
  next_valid-Answers now later [] q e v = (simp e v, simp e refl)
  next_valid-Answers now later (x ∷ xs) q e v =
      elim (Bool-cases (contains x.task_id q.cancelled_task_ids)) [
        | inl h ↦
            let n : ℕ = q.queue.unfinished_tasks - 1 in
            let u : q.queue.unfinished_tasks ≡ suc n = omega (arith, v.unfinished) in
            let t = skip-Tracks x xs n q v h u in
            let skipped = live-delete q.cancelled_task_ids x.task_id xs v.distinct.0 in
            rw (h, next_valid, u) (rw skipped at (next_valid-Answers now later xs _ refl t))
        | inr h ↦ rw (h, next_valid) (deliver-Tracks now later x xs q v h, (refl, refl))
      ]

  -- `get` answers with the first waiting task and takes it out; it waits if and only if there is
  -- none. It never raises, and keeps the bookkeeping valid.
  pub get-Answers :
      (now later : ℕ) (q : TaskQueue J)
      → IsValid q
      → IsValid (get now later q).0
        × Answers (pending q) (get now later q).1 (pending (get now later q).0)
  unfolding get
  get-Answers now later q v = next_valid-Answers now later q.queue.items q refl v

-- ===== src/Queue/Invariant.antt =====
-- The bookkeeping of `TaskQueue` in src/async_task_worker/queue.py agrees with the items that the
-- queue holds, and `put`, `remove_task` and `task_done` keep it so.
use async_task_worker.Base.{
  ℕ, ◌+◌, ◌≤◌, String, ◌≡◌, refl, true, false, Option, some, List, arith, length, ◌∙◌, sym,
}
use async_task_worker.Base.Dict
use async_task_worker.Base.Dict.{Set, contains}
use async_task_worker.Base.Int.{pos, ◌-ℤ◌}
use async_task_worker.Queue.{TaskQueue, init, put, update_enqueue}
use async_task_worker.Queue.Heap
use async_task_worker.Queue.Heap.{Item, push, has_id}
use async_task_worker.Queue.Order.{IsSorted, push-IsSorted}
use async_task_worker.Queue.Live.{
  live, IsDistinct, push-IsDistinct, has_id-push, length-push, live-push, live-add, has_id-live,
  has_id-without, live-IsDistinct, length-without,
}

-- The tracking of `q`, for a queue that holds the items `xs`.
pub record Tracks {J : Type 0} (xs : List (Item J)) (q : TaskQueue J) : Type 0 where
  pub distinct : IsDistinct xs
  pub sorted : IsSorted xs
  pub queued : (t : String) → contains t q.queued_task_ids ≡ has_id t (live q.cancelled_task_ids xs)
  pub cancelled : (t : String) → contains t q.cancelled_task_ids ≡ true → has_id t xs ≡ true
  pub timed : (t : String) → contains t q.task_entry_times ≡ contains t q.queued_task_ids
  pub size : q.stats.queue_size ≡ pos (length (live q.cancelled_task_ids xs))
  pub unfinished : length xs ≤ q.queue.unfinished_tasks

abbrev pub IsValid : {J : Type 0} → TaskQueue J → Type 0
IsValid q = Tracks q.queue.items q

-- The waiting tasks, in the order in which they will be handed out.
abbrev pub pending : {J : Type 0} → TaskQueue J → List (Item J)
pending q = live q.cancelled_task_ids q.queue.items

module _ {J : Type 0} where
  pub init-IsValid : (max_size : Option ℕ) → IsValid (init {J = J} max_size)
  unfolding init Dict.lookup live
  init-IsValid max_size = record {
    distinct = tt;
    sorted = tt;
    queued = λ t. refl;
    cancelled = λ t h. cc;
    timed = λ t. refl;
    size = refl;
    unfinished = omega arith;
  }

  pub not_cancelled :
      {q : TaskQueue J} (t : String)
      → IsValid q
      → has_id t q.queue.items ≡ false
      → contains t q.cancelled_task_ids ≡ false
  not_cancelled {q} t v h = ground (arith, v.cancelled t)

  -- A `put` that does not wait, as one record.
  abbrev pub stored : ℕ → ℕ → Item J → TaskQueue J → TaskQueue J
  stored entry_time now item q = record {
    queue = record q.queue {
      items = push item q.queue.items;
      unfinished_tasks = q.queue.unfinished_tasks + 1;
    };
    stats = update_enqueue now q.stats;
    task_entry_times = Dict.insert item.task_id entry_time q.task_entry_times;
    queued_task_ids = Dict.add item.task_id q.queued_task_ids;
    cancelled_task_ids = q.cancelled_task_ids;
  }

  pub put-stored :
      (entry_time now : ℕ) (item : Item J) (q : TaskQueue J)
      → Heap.full q.queue ≡ false
      → put entry_time now item q ≡ some (stored entry_time now item q)
  unfolding put
  put-stored entry_time now item q h = ground arith

  pub pending-stored :
      (entry_time now : ℕ) (item : Item J) (q : TaskQueue J)
      → IsValid q
      → has_id item.task_id q.queue.items ≡ false
      → pending (stored entry_time now item q) ≡ push item (pending q)
  pending-stored entry_time now item q v fresh =
      live-push q.cancelled_task_ids item q.queue.items (not_cancelled item.task_id v fresh)
        v.sorted

  pub stored-IsValid :
      (entry_time now : ℕ) (item : Item J) (q : TaskQueue J)
      → IsValid q
      → has_id item.task_id q.queue.items ≡ false
      → IsValid (stored entry_time now item q)
  unfolding update_enqueue
  stored-IsValid entry_time now item q v fresh = record {
    distinct = push-IsDistinct item q.queue.items fresh v.distinct;
    sorted = push-IsSorted item q.queue.items v.sorted;
    queued = λ t. rw e (
        ground (
          arith,
          Dict.lookup-insert item.task_id t tt q.queued_task_ids,
          has_id-push t item (pending q),
          v.queued t,
        ));
    cancelled = λ t h. ground (arith, has_id-push t item q.queue.items, v.cancelled t h);
    timed = λ t. ground (
      arith,
      Dict.lookup-insert item.task_id t tt q.queued_task_ids,
      Dict.lookup-insert item.task_id t entry_time q.task_entry_times,
      v.timed t,
    );
    size = rw e (ground (arith, v.size, length-push item (pending q)));
    unfinished = omega (arith, v.unfinished, length-push item q.queue.items);
  }
    where
      e : pending (stored entry_time now item q) ≡ push item (pending q)
      e = pending-stored entry_time now item q v fresh

  -- `remove_task` of a task that waits, as one record.
  abbrev pub removed : String → TaskQueue J → TaskQueue J
  removed t q = record q {
    cancelled_task_ids = Dict.add t q.cancelled_task_ids;
    queued_task_ids = Dict.delete t q.queued_task_ids;
    task_entry_times = Dict.delete t q.task_entry_times;
    stats = record q.stats { queue_size = q.stats.queue_size -ℤ pos 1 };
  }

  pub removed-IsValid :
      (t : String) (q : TaskQueue J)
      → IsValid q
      → contains t q.queued_task_ids ≡ true
      → IsValid (removed t q)
  unfolding ◌-ℤ◌
  removed-IsValid t q v h = record {
    distinct = v.distinct;
    sorted = v.sorted;
    queued = λ j. rw (live-add c t xs) (
        ground (
          arith,
          Dict.lookup-delete t j q.queued_task_ids,
          has_id-without t j (live c xs),
          v.queued j,
        ));
    cancelled = λ j k.
        ground (arith, Dict.lookup-insert t j tt c, v.cancelled j, v.queued t, has_id-live t c xs);
    timed = λ j. ground (
      arith,
      Dict.lookup-delete t j q.queued_task_ids,
      Dict.lookup-delete t j q.task_entry_times,
      v.timed j,
    );
    size = rw (live-add c t xs) (
        ground (
          arith,
          v.size,
          length-without t (live c xs) (live-IsDistinct c xs v.distinct) (sym (v.queued t) ∙ h),
        ));
    unfinished = v.unfinished;
  }
    where
      c : Set
      c = q.cancelled_task_ids

      xs : List (Item J)
      xs = q.queue.items

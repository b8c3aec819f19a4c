-- ===== src/Queue.antt =====
-- src/async_task_worker/queue.py: `QueueStats` and `TaskQueue`.
-- A reading of the clock is an argument, in ticks, for each `time.time()` of the source. A critical section under `_queue_lock` is one
-- step.
pub mod Heap
mod Order
pub mod Live
pub mod Invariant
pub mod Refinement
mod Least
mod Stats
mod Tests
use async_task_worker.Base.{
  ℕ, suc, ◌+◌, ◌*◌, String, Bool, true, false, Option, none, some, List, [], ◌∷◌, ◌++◌, length,
  if◌then◌else◌, ltb,
}
use async_task_worker.Base.Dict
use async_task_worker.Base.Dict.{Dict, Set, add, contains}
use async_task_worker.Base.Int.{ℤ, pos, ◌+ℤ◌, ◌-ℤ◌, ltb_ℤ}
use Heap.{Item, PriorityQueue}

-- The exact quotient of a sum and a count: `avg_wait_time`.
pub record Quotient : Type 0 where
  pub numerator : ℤ
  pub denominator : ℕ

pub record QueueStats : Type 0 where
  pub queue_size : ℤ
  pub enqueued_total : ℕ
  pub dequeued_total : ℕ
  pub avg_wait_time : Quotient
  pub peak_queue_size : ℤ
  pub last_enqueued_at : Option ℕ
  pub last_dequeued_at : Option ℕ
  pub wait_times : List ℤ

abbrev pub wait_time_window : ℕ
wait_time_window = 100

unfoldable pub fresh_stats : QueueStats
fresh_stats = record {
  queue_size = pos 0;
  enqueued_total = 0;
  dequeued_total = 0;
  avg_wait_time = record { numerator = pos 0; denominator = 1 };
  peak_queue_size = pos 0;
  last_enqueued_at = none;
  last_dequeued_at = none;
  wait_times = [];
}

abbrev pub max_ℤ : ℤ → ℤ → ℤ
max_ℤ a b = if ltb_ℤ a b then b else a

unfoldable pub update_enqueue : ℕ → QueueStats → QueueStats
unfolding ◌+ℤ◌
update_enqueue now s =
    let size = s.queue_size +ℤ pos 1 in
    record s {
      enqueued_total = s.enqueued_total + 1;
      queue_size = size;
      peak_queue_size = max_ℤ s.peak_queue_size size;
      last_enqueued_at = some now;
    }

abbrev pub sum : List ℤ → ℤ
sum [] = pos 0
sum (x ∷ xs) = x +ℤ sum xs

-- `self.wait_times.pop(0)`
abbrev pub drop_first : List ℤ → List ℤ
drop_first [] = []
drop_first (x ∷ xs) = xs

-- The sliding window, after a wait time was appended.
unfoldable pub slide : List ℤ → ℤ → List ℤ
slide times w =
    let longer = times ++ w ∷ [] in
    if ltb wait_time_window (length longer) then drop_first longer else longer

unfoldable pub update_dequeue : ℕ → Option ℤ → QueueStats → QueueStats
unfolding slide ◌-ℤ◌
update_dequeue now wait s =
    let counted = record s {
      dequeued_total = s.dequeued_total + 1;
      queue_size = s.queue_size -ℤ pos 1;
      last_dequeued_at = some now;
    } in
    elim wait [
      | none ↦ counted
      | some w ↦
          let times = slide s.wait_times w in
          record counted {
            wait_times = times;
            avg_wait_time = record { numerator = sum times; denominator = length times };
          }
    ]

pub record TaskQueue (J : Type 0) : Type 0 where
  pub queue : PriorityQueue J
  pub stats : QueueStats
  pub task_entry_times : Dict ℕ
  pub queued_task_ids : Set
  pub cancelled_task_ids : Set

-- What `_get_valid_task` comes to: an item, a wait on the empty queue, or the ValueError of a
-- `task_done` too many.
pub data Got (J : Type 0) : Type 0 where
  got : Item J → Got J
  waits : Got J
  value_error : Got J

module _ {J : Type 0} where
  unfoldable pub init : Option ℕ → TaskQueue J
  unfolding fresh_stats
  init max_size = record {
    queue = record {
      maxsize = elim max_size [ none ↦ 0 | some n ↦ n ];
      items = [];
      unfinished_tasks = 0;
    };
    stats = fresh_stats;
    task_entry_times = [];
    queued_task_ids = [];
    cancelled_task_ids = [];
  }

  -- `none` while the bounded queue is full: the caller waits, with the lock in its hands.
  unfoldable pub put : ℕ → ℕ → Item J → TaskQueue J → Option (TaskQueue J)
  unfolding Heap.put update_enqueue
  put entry_time now item q = elim (Heap.put item q.queue) [
    | none ↦ none
    | some queue ↦ some (record {
      queue = queue;
      stats = update_enqueue now q.stats;
      task_entry_times = Dict.insert item.task_id entry_time q.task_entry_times;
      queued_task_ids = add item.task_id q.queued_task_ids;
      cancelled_task_ids = q.cancelled_task_ids;
    })
  ]

  -- The item is handed out: the part of the loop's body behind the test for cancellation.
  unfoldable pub deliver : ℕ → ℕ → Item J → TaskQueue J → TaskQueue J
  unfolding update_dequeue
  deliver now later item q =
      let wait : Option ℤ = elim (Dict.lookup item.task_id q.task_entry_times) [
        | none ↦ none
        | some entry_time ↦ some (pos now -ℤ pos entry_time)
      ] in
      record q {
        stats = update_dequeue later wait q.stats;
        task_entry_times = Dict.delete item.task_id q.task_entry_times;
        queued_task_ids = Dict.delete item.task_id q.queued_task_ids;
      }

  -- The `while True` loop of `_get_valid_task`, over the items that are left in the queue.
  unfoldable pub next_valid : ℕ → ℕ → List (Item J) → TaskQueue J → TaskQueue J × Got J
  unfolding deliver Heap.task_done
  next_valid now later [] q = (q, waits)
  next_valid now later (item ∷ rest) q =
      let popped = record q { queue = record q.queue { items = rest } } in
      elim (contains item.task_id q.cancelled_task_ids) [
        | true ↦ elim (Heap.task_done popped.queue) [
          | none ↦ (
            record popped { cancelled_task_ids = Dict.delete item.task_id q.cancelled_task_ids },
            value_error,
          )
          | some queue ↦ next_valid now later rest (record popped {
            queue = queue;
            cancelled_task_ids = Dict.delete item.task_id q.cancelled_task_ids;
          })
        ]
        | false ↦ (deliver now later item popped, got item)
      ]

  unfoldable pub get : ℕ → ℕ → TaskQueue J → TaskQueue J × Got J
  unfolding next_valid
  get now later q = next_valid now later q.queue.items q

  unfoldable pub task_done : TaskQueue J → Option (TaskQueue J)
  unfolding Heap.task_done
  task_done q = elim (Heap.task_done q.queue) [
    | none ↦ none
    | some queue ↦ some (record q { queue = queue })
  ]

  unfoldable pub is_task_queued : String → TaskQueue J → Bool
  is_task_queued task_id q = contains task_id q.queued_task_ids

  unfoldable pub remove_task : String → TaskQueue J → TaskQueue J × Bool
  unfolding ◌-ℤ◌
  remove_task task_id q = elim (contains task_id q.queued_task_ids) [
    | false ↦ (q, false)
    | true ↦ (
      record q {
        cancelled_task_ids = add task_id q.cancelled_task_ids;
        queued_task_ids = Dict.delete task_id q.queued_task_ids;
        task_entry_times = Dict.delete task_id q.task_entry_times;
        stats = record q.stats { queue_size = q.stats.queue_size -ℤ pos 1 };
      },
      true,
    )
  ]

  -- The body of the loop of `clean_cancelled_tasks`.
  unfoldable pub forget : String → TaskQueue J → TaskQueue J
  forget task_id q = record q {
    cancelled_task_ids = Dict.delete task_id q.cancelled_task_ids;
    queued_task_ids = Dict.delete task_id q.queued_task_ids;
    task_entry_times = Dict.delete task_id q.task_entry_times;
  }

  unfoldable pub clean_cancelled_tasks : List String → TaskQueue J → TaskQueue J
  unfolding forget
  clean_cancelled_tasks [] q = q
  clean_cancelled_tasks (t ∷ ts) q = clean_cancelled_tasks ts (forget t q)

  unfoldable pub clear_tracking : TaskQueue J → TaskQueue J
  clear_tracking q = record q {
    task_entry_times = [];
    queued_task_ids = [];
    cancelled_task_ids = [];
  }

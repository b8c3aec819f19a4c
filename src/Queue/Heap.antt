-- ===== src/Queue/Heap.antt =====
-- `asyncio.PriorityQueue` of Python's standard library, as src/async_task_worker/queue.py uses it.
-- The items are kept in the order in which `get` hands them out: least (priority, task_id) first,
-- as Python compares the tuples that the queue stores. This is so as long as no two items of the queue
-- have the same priority and task id: for such a tie Python goes on to compare the functions, and where
-- the heap comes to compare the two, `put` raises a TypeError when it has stored the item and not yet
-- counted it. `ties` tells such a put: a step of Worker/Loop leaves any queue behind it.
use async_task_worker.Base.{
  ℕ, zero, suc, ◌+◌, String, Bool, true, false, Option, none, some, List, [], ◌∷◌, str_lt, str_dec,
  ite, if◌then◌else◌, leb, length,
}
use async_task_worker.Base.Int.{ℤ, ltb_ℤ, eqb_ℤ}

-- (priority, task_id, task_func, args, kwargs, timeout), with the call in one field.
pub record Item (J : Type 0) : Type 0 where
  pub priority : ℤ
  pub task_id : String
  pub call : J
  pub timeout : Option ℕ

-- `unfinished_tasks` counts the puts that no `task_done` has answered.
pub record PriorityQueue (J : Type 0) : Type 0 where
  pub maxsize : ℕ
  pub items : List (Item J)
  pub unfinished_tasks : ℕ

module _ {J : Type 0} where
  unfoldable pub item_lt : Item J → Item J → Bool
  item_lt a b =
      if ltb_ℤ a.priority b.priority
      then true
      else if eqb_ℤ a.priority b.priority
      then str_lt a.task_id b.task_id
      else false

  -- An item of the queue has the priority and the id of the new one.
  unfoldable pub ties : Item J → List (Item J) → Bool
  ties x [] = false
  ties x (y ∷ ys) =
      let rest = ties x ys in
      ite (str_dec x.task_id y.task_id) (if eqb_ℤ x.priority y.priority then true else rest) rest

  -- For an item without a tie.
  unfoldable pub push : Item J → List (Item J) → List (Item J)
  push x [] = x ∷ []
  push x (y ∷ ys) = if item_lt x y then x ∷ y ∷ ys else y ∷ push x ys

  -- `maxsize <= 0` means that the queue is never full.
  unfoldable pub full : PriorityQueue J → Bool
  full q = elim q.maxsize [ zero ↦ false | suc n ↦ leb (suc n) (length q.items) ]

  unfoldable pub empty : PriorityQueue J → Bool
  empty q = elim q.items [ [] ↦ true | _ ∷ _ ↦ false ]

  unfoldable pub qsize : PriorityQueue J → ℕ
  qsize q = length q.items

  -- The caller waits (`none`) while the queue is full.
  unfoldable pub put : Item J → PriorityQueue J → Option (PriorityQueue J)
  unfolding full
  put x q =
      if full q
      then none
      else some (record q { items = push x q.items; unfinished_tasks = q.unfinished_tasks + 1 })

  -- `none` stands for the ValueError of a `task_done` too many.
  unfoldable pub task_done : PriorityQueue J → Option (PriorityQueue J)
  task_done q = elim q.unfinished_tasks [
    | zero ↦ none
    | suc n ↦ some (record q { unfinished_tasks = n })
  ]

  abbrev pub has_id : String → List (Item J) → Bool
  has_id t [] = false
  has_id t (x ∷ xs) = ite (str_dec t x.task_id) true (has_id t xs)

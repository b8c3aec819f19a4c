-- ===== src/Futures.antt =====
-- src/async_task_worker/futures.py: `TaskFutureManager`.
-- A future is an object that callers share, so the manager keeps a store of futures by address, and
-- the weak dictionary maps a task id to an address. The collector may drop an entry of the weak
-- dictionary at any time (`collect`). A critical section under `_futures_lock` is one step, and the
-- periodic cleanup is the environment's call of `cleanup_completed_futures`.
pub mod Store
mod Sound
mod Outcomes
mod Calls
mod Waiters
mod Tests
use async_task_worker.Base.{
  ℕ, zero, suc, ◌+◌, String, Bool, true, false, not, Option, none, some, List, [], ◌∷◌, ◌++◌,
  length, if◌then◌else◌, str_dec, ite,
}
use async_task_worker.Base.Dict
use async_task_worker.Base.Dict.{Dict, Set, add, contains}
use async_task_worker.Status.{TaskInfo, TaskStatus, completed, failed, cancelled, is_terminal_state}

-- The exceptions that are set on a future: TaskExecutionError, TaskCancellationError, TaskError.
pub data Failure : Type 0 where
  execution_error : (message task_id : String) → Failure
  cancellation_error : (message task_id : String) → Failure
  task_error : (message task_id : String) → Failure

-- `asyncio.Future`
pub data Future (V : Type 0) : Type 0 where
  open_future : Future V
  resolved : V → Future V
  raised : Failure → Future V
  withdrawn : Future V

abbrev pub is_open : {V : Type 0} → Future V → Bool
is_open open_future = true
is_open (resolved v) = false
is_open (raised e) = false
is_open withdrawn = false

pub record Manager (V : Type 0) : Type 0 where
  pub store : List (Future V)
  pub futures : Dict ℕ
  pub pending_tasks : Set

-- `text or default`: an empty text counts as missing.
abbrev pub text_or : Option String → String → String
text_or none default = default
text_or (some t) default = ite (str_dec t "") default t

module _ {V : Type 0} where
  -- Reading and writing the object at an address.
  abbrev pub at : List (Future V) → ℕ → Option (Future V)
  at [] a = none
  at (f ∷ fs) zero = some f
  at (f ∷ fs) (suc a) = at fs a

  abbrev pub write : List (Future V) → ℕ → Future V → List (Future V)
  write [] a g = []
  write (f ∷ fs) zero g = g ∷ fs
  write (f ∷ fs) (suc a) g = f ∷ write fs a g

  abbrev pub new_manager : Manager V
  new_manager = record { store = []; futures = []; pending_tasks = [] }

  -- `self._futures.get(task_id)`, and the object behind it.
  unfoldable pub find : String → Manager V → Option (ℕ × Future V)
  find task_id m = elim (Dict.lookup task_id m.futures) [
    | none ↦ none
    | some a ↦ elim (at m.store a) [ none ↦ none | some f ↦ some (a, f) ]
  ]

  -- The future if it is there and not done.
  unfoldable pub find_open : String → Manager V → Option ℕ
  unfolding find
  find_open task_id m = elim (find task_id m) [
    | none ↦ none
    | some (a, f) ↦ if is_open f then some a else none
  ]

  -- Writes the outcome of a future, and takes its task off the pending ones.
  unfoldable pub settle : Future V → String → ℕ → Manager V → Manager V
  settle outcome task_id a m = record m {
    store = write m.store a outcome;
    pending_tasks = Dict.delete task_id m.pending_tasks;
  }

  -- The existing future of the task, or a new one: its address.
  unfoldable pub get_future : String → Manager V → Manager V × ℕ
  get_future task_id m = elim (Dict.lookup task_id m.futures) [
    | some a ↦ (m, a)
    | none ↦ (
      record {
        store = m.store ++ open_future ∷ [];
        futures = Dict.insert task_id (length m.store) m.futures;
        pending_tasks = add task_id m.pending_tasks;
      },
      length m.store,
    )
  ]

  -- What `set_result` and `set_exception` do with the outcome that they are given.
  unfoldable pub settle_open : Future V → String → Manager V → Manager V
  unfolding find_open settle
  settle_open outcome task_id m = elim (find_open task_id m) [
    | none ↦ m
    | some a ↦ settle outcome task_id a m
  ]

  unfoldable pub set_result : String → V → Manager V → Manager V
  unfolding settle_open
  set_result task_id result m = settle_open (resolved result) task_id m

  unfoldable pub set_exception : String → Failure → Manager V → Manager V
  unfolding settle_open
  set_exception task_id exception m = settle_open (raised exception) task_id m

  unfoldable pub complete_from_result : String → V → Manager V → Manager V
  unfolding set_result
  complete_from_result task_id result m = set_result task_id result m

  -- The value of `task_info.result`, where `null` is Python's `None`.
  abbrev pub result_or : Option V → V → V
  result_or none null = null
  result_or (some v) null = v

  unfoldable pub complete_from_task_info : V → String → TaskInfo V → Manager V → Manager V
  unfolding set_result set_exception is_terminal_state
  complete_from_task_info null task_id info m =
      if not (is_terminal_state info) then m else elim info.status [
        | completed ↦ set_result task_id (result_or info.result null) m
        | failed ↦
            set_exception task_id (execution_error (text_or info.error "Unknown error") task_id) m
        | cancelled ↦
            set_exception task_id (cancellation_error (text_or info.error "Task cancelled") task_id)
              m
        | _ ↦ m
      ]

  unfoldable pub cancel_future : String → Manager V → Manager V × Bool
  unfolding find_open settle
  cancel_future task_id m = elim (find_open task_id m) [
    | none ↦ (m, false)
    | some a ↦ (settle withdrawn task_id a m, true)
  ]

  -- The loop of `cancel_all_futures` over the ids that were pending, with its count.
  unfoldable pub cancel_each : List String → Manager V → ℕ → Manager V × ℕ
  unfolding find_open
  cancel_each [] m count = (m, count)
  cancel_each (t ∷ ts) m count = elim (find_open t m) [
    | none ↦ cancel_each ts m count
    | some a ↦ cancel_each ts (record m { store = write m.store a withdrawn }) (count + 1)
  ]

  unfoldable pub cancel_all_futures : Manager V → Manager V × ℕ
  unfolding cancel_each
  cancel_all_futures m =
      let (m', count) = cancel_each (Dict.keys m.pending_tasks) m 0 in
      (record m' { pending_tasks = [] }, count)

  -- The ids of `to_remove` leave the pending ones.
  unfoldable pub drop_done : List String → Manager V → Manager V
  unfolding find_open
  drop_done [] m = m
  drop_done (t ∷ ts) m = elim (find_open t m) [
    | none ↦ drop_done ts (record m { pending_tasks = Dict.delete t m.pending_tasks })
    | some a ↦ drop_done ts m
  ]

  unfoldable pub cleanup_completed_futures : Manager V → Manager V
  unfolding drop_done
  cleanup_completed_futures m = drop_done (Dict.keys m.pending_tasks) m

  unfoldable pub get_pending_count : Manager V → ℕ
  get_pending_count m = length m.pending_tasks

  -- The collector drops the future of a task that nobody holds.
  unfoldable pub collect : String → Manager V → Manager V
  collect task_id m = record m { futures = Dict.delete task_id m.futures }

-- ===== src/Worker/Waits.antt =====
-- src/async_task_worker/core.py: `wait_for_tasks` and `wait_for_any_task`. Up to the awaits no other
-- task runs, since an asyncio lock that is free is taken at once. What the futures hold when they
-- are awaited is the store of the time.
use async_task_worker.Base.{
  ℕ, zero, suc, String, Option, none, some, List, [], ◌∷◌, if◌then◌else◌, ◌==◌,
}
use async_task_worker.Base.Dict
use async_task_worker.Status.{TaskInfo, completed, status_code}
use async_task_worker.Futures
use async_task_worker.Futures.{Future, open_future, resolved, raised, withdrawn, Failure, result_or}
use async_task_worker.Worker.{Worker}
use async_task_worker.Worker.Maintenance.{get_task_future}

-- What a wait comes to: results, the exception of a task, the CancelledError of a future, the
-- TimeoutError, a wait without a timeout that goes on, the KeyError of an unknown task, or the
-- ValueError for no ids at all.
pub data Waited (R : Type 0) : Type 0 where
  results : R → Waited R
  task_failed : Failure → Waited R
  future_cancelled : Waited R
  timed_out : Waited R
  still_waits : Waited R
  unknown_task : Waited R
  no_task_ids : Waited R

-- `final_results[i] = result`
unfoldable pub set {ℓ} : {A : Type ℓ} → List A → ℕ → A → List A
set [] i v = []
set (x ∷ xs) zero v = v ∷ xs
set (x ∷ xs) (suc i) v = x ∷ set xs i v

abbrev pub at_timeout {ℓ} : {R : Type 0} {T : Type ℓ} → Option T → Waited R
at_timeout none = still_waits
at_timeout (some seconds) = timed_out

module _ {V : Type 0} where
  -- The result of a task that is completed.
  unfoldable pub completed_result : V → Option (TaskInfo V) → Option V
  completed_result null none = none
  completed_result null (some info) =
      if status_code info.status == status_code completed
      then some (result_or info.result null)
      else none

  -- Awaiting the futures one after the other.
  unfoldable pub await_each :
      Option ℕ → (ℕ → Option (Future V)) → List (ℕ × ℕ) → List V → Waited (List V)
  await_each timeout future [] final_results = results final_results
  await_each timeout future ((i, a) ∷ rest) final_results = elim (future a) [
    | some (resolved v) ↦ await_each timeout future rest (set final_results i v)
    | some (raised e) ↦ task_failed e
    | some withdrawn ↦ future_cancelled
    | some open_future ↦ at_timeout timeout
    | none ↦ at_timeout timeout
  ]

  -- The futures that are done.
  unfoldable pub done_futures : (ℕ → Option (Future V)) → List (ℕ × String) → List (ℕ × String)
  done_futures future [] = []
  done_futures future ((a, t) ∷ rest) =
      let others = done_futures future rest in
      elim (future a) [
        | none ↦ others
        | some f ↦ if Futures.is_open f then others else (a, t) ∷ others
      ]

  -- `completed_future.result()` with the id of the future.
  abbrev pub result_of : Option (Future V) → String → Waited (V × String)
  result_of (some (resolved v)) t = results (v, t)
  result_of (some (raised e)) t = task_failed e
  result_of (some withdrawn) t = future_cancelled
  result_of (some open_future) t = still_waits
  result_of none t = still_waits

module _ {V F A : Type 0} (null : V) where
  -- The first loop: the results that are there, and the index and id of each other task.
  unfoldable pub sort_out : List String → ℕ → Worker V F A → List V × List (ℕ × String)
  unfolding completed_result
  sort_out [] i w = ([], [])
  sort_out (t ∷ ts) i w =
      let (final_results, pending_task_ids) = sort_out ts (suc i) w in
      elim (completed_result null (Dict.lookup t w.tasks)) [
        | some v ↦ (v ∷ final_results, pending_task_ids)
        | none ↦ (null ∷ final_results, (i, t) ∷ pending_task_ids)
      ]

  -- `get_task_future` for each of them; `none` is its KeyError.
  unfoldable pub get_futures :
      List (ℕ × String) → Worker V F A → Worker V F A × Option (List (ℕ × ℕ))
  get_futures [] w = (w, some [])
  get_futures ((i, t) ∷ rest) w = elim (get_task_future null t w) [
    | none ↦ (w, none)
    | some (w', a) ↦
        let (w2, futures) = get_futures rest w' in
        (w2, elim futures [ none ↦ none | some fs ↦ some ((i, a) ∷ fs) ])
  ]

  -- From the second loop on.
  unfoldable pub wait_for_rest :
      Option ℕ
      → (Worker V F A → ℕ → Option (Future V))
      → List V
      → List (ℕ × String)
      → Worker V F A
      → Worker V F A × Waited (List V)
  unfolding get_futures await_each
  wait_for_rest timeout later final_results pending_task_ids w =
      let (w', futures) = get_futures pending_task_ids w in
      (
        w',
        elim futures [
          | none ↦ unknown_task
          | some fs ↦ await_each timeout (later w') fs final_results
        ],
      )

  -- `later w'` is what the futures hold when they are awaited.
  unfoldable pub wait_for_tasks :
      Option ℕ
      → (Worker V F A → ℕ → Option (Future V))
      → List String
      → Worker V F A
      → Worker V F A × Waited (List V)
  unfolding sort_out wait_for_rest
  wait_for_tasks timeout later [] w = (w, results [])
  wait_for_tasks timeout later (t ∷ ts) w =
      let (final_results, pending_task_ids) = sort_out (t ∷ ts) 0 w in
      elim pending_task_ids [
        | [] ↦ (w, results final_results)
        | p ∷ ps ↦ wait_for_rest timeout later final_results (p ∷ ps) w
      ]

  -- The first loop of `wait_for_any_task`.
  unfoldable pub first_completed : List String → Worker V F A → Option (V × String)
  unfolding completed_result
  first_completed [] w = none
  first_completed (t ∷ ts) w =
      let rest = first_completed ts w in
      elim (completed_result null (Dict.lookup t w.tasks)) [ some v ↦ some (v, t) | none ↦ rest ]

  -- Its second loop: the futures with the id that each stands for, the last one first.
  unfoldable pub map_futures :
      List String → List (ℕ × String) → Worker V F A → Worker V F A × Option (List (ℕ × String))
  map_futures [] futures_map w = (w, some futures_map)
  map_futures (t ∷ ts) futures_map w = elim (get_task_future null t w) [
    | none ↦ (w, none)
    | some (w', a) ↦ map_futures ts ((a, t) ∷ futures_map) w'
  ]

  -- From the second loop on. `asyncio.wait` answers a set of futures: `pick` is the one that its
  -- iteration gives first.
  unfoldable pub wait_for_first :
      Option ℕ
      → (Worker V F A → ℕ → Option (Future V))
      → (ℕ × String → List (ℕ × String) → ℕ × String)
      → List String
      → Worker V F A
      → Worker V F A × Waited (V × String)
  unfolding map_futures done_futures
  wait_for_first timeout later pick task_ids w =
      let (w', futures) = map_futures task_ids [] w in
      (
        w',
        elim futures [
          | none ↦ unknown_task
          | some fs ↦ elim (done_futures (later w') fs) [
            | [] ↦ at_timeout timeout
            | d ∷ ds ↦ let (a, i) = pick d ds in result_of (later w' a) i
          ]
        ],
      )

  unfoldable pub wait_for_any_task :
      Option ℕ
      → (Worker V F A → ℕ → Option (Future V))
      → (ℕ × String → List (ℕ × String) → ℕ × String)
      → List String
      → Worker V F A
      → Worker V F A × Waited (V × String)
  unfolding first_completed wait_for_first
  wait_for_any_task timeout later pick [] w = (w, no_task_ids)
  wait_for_any_task timeout later pick (t ∷ ts) w = elim (first_completed (t ∷ ts) w) [
    | some r ↦ (w, results r)
    | none ↦ wait_for_first timeout later pick (t ∷ ts) w
  ]

-- ===== src/Worker/Maintenance.antt =====
-- src/async_task_worker/core.py: the listing of tasks, the futures of tasks, the removal of old tasks,
-- and the start and stop of the worker.
use async_task_worker.Base.{
  ℕ, ◌+◌, ◌*◌, String, Bool, true, false, not, ◌&&◌, ◌||◌, Option, none, some, List, [], ◌∷◌,
  if◌then◌else◌, ltb, leb, ◌==◌,
}
use async_task_worker.Base.Dict
use async_task_worker.Base.Dict.{Dict, contains}
use async_task_worker.Status.{TaskStatus, TaskInfo, is_terminal_state, status_code}
use async_task_worker.Queue
use async_task_worker.Futures
use async_task_worker.Pool
use async_task_worker.Worker.{Worker, on_task_cancelled}

-- A terminal task that ended more than `retention` milliseconds before `now`. The source compares
-- `completed_at` with `now - retention`.
unfoldable pub is_old : {V : Type 0} → ℕ → ℕ → TaskInfo V → Bool
unfolding is_terminal_state
is_old now retention info =
    is_terminal_state info
    && elim info.completed_at [ none ↦ false | some c ↦ ltb (c + retention) now ]

unfoldable pub old_ids : {V : Type 0} → ℕ → ℕ → Dict (TaskInfo V) → List String
unfolding is_old
old_ids now retention [] = []
old_ids now retention ((t, info) ∷ rest) =
    let ids = old_ids now retention rest in if is_old now retention info then t ∷ ids else ids

-- The second loop under the lock, with its count.
unfoldable pub remove_tasks {ℓ} : {A : Type ℓ} → List String → Dict A → ℕ → Dict A × ℕ
remove_tasks [] tasks count = (tasks, count)
remove_tasks (t ∷ ts) tasks count =
    remove_tasks ts (Dict.delete t tasks) (if contains t tasks then count + 1 else count)

unfoldable pub cancel_futures : {V : Type 0} → List String → Futures.Manager V → Futures.Manager V
cancel_futures [] m = m
cancel_futures (t ∷ ts) m = cancel_futures ts (Futures.cancel_future t m).0

abbrev pub day : ℕ
day = 86_400_000

-- What `get_all_tasks` skips.
unfoldable pub skipped : {V : Type 0} → Option TaskStatus → Option ℕ → TaskInfo V → Bool
skipped status cutoff info =
    elim status [ none ↦ false | some s ↦ not (status_code s == status_code info.status) ]
    || elim cutoff [ none ↦ false | some c ↦ leb c info.created_at ]

abbrev pub reached : Option ℕ → ℕ → Bool
reached none n = false
reached (some limit) n = leb limit n

-- The loop over the tasks, with the number of results so far.
unfoldable pub select :
    {V : Type 0}
    → Option TaskStatus
    → Option ℕ
    → Option ℕ
    → Dict (TaskInfo V)
    → ℕ
    → List (TaskInfo V)
unfolding skipped
select status cutoff limit [] n = []
select status cutoff limit ((t, info) ∷ rest) n = elim (skipped status cutoff info) [
  | true ↦ select status cutoff limit rest n
  | false ↦
      info
      ∷ elim (reached limit (n + 1)) [ true ↦ [] | false ↦ select status cutoff limit rest (n + 1) ]
]

-- `results.sort(key=created_at, reverse=True)`: newest first, equal times in their old order.
unfoldable pub insert_newest : {V : Type 0} → TaskInfo V → List (TaskInfo V) → List (TaskInfo V)
insert_newest x [] = x ∷ []
insert_newest x (y ∷ ys) =
    if leb y.created_at x.created_at then x ∷ y ∷ ys else y ∷ insert_newest x ys

unfoldable pub sort_newest : {V : Type 0} → List (TaskInfo V) → List (TaskInfo V)
unfolding insert_newest
sort_newest [] = []
sort_newest (x ∷ xs) = insert_newest x (sort_newest xs)

module _ {V F A : Type 0} where
  unfoldable pub cleanup_old_tasks : ℕ → Worker V F A → Worker V F A × ℕ
  unfolding old_ids remove_tasks cancel_futures
  cleanup_old_tasks now w = elim w.task_retention_days [
    | none ↦ (w, 0)
    | some days ↦
        let ids = old_ids now (days * day) w.tasks in
        let (tasks, count) = remove_tasks ids w.tasks 0 in
        (
          record w {
            tasks = tasks;
            future_manager = cancel_futures ids w.future_manager;
            queue = Queue.clean_cancelled_tasks ids w.queue;
          },
          count,
        )
  ]

  -- `cutoff` is the time of the call less `older_than`, where one is given.
  unfoldable pub get_all_tasks :
      Option TaskStatus → Option ℕ → Option ℕ → Worker V F A → List (TaskInfo V)
  unfolding select sort_newest
  get_all_tasks status limit cutoff w = sort_newest (select status cutoff limit w.tasks 0)

  -- `none` is the KeyError of an unknown task.
  unfoldable pub get_task_future : V → String → Worker V F A → Option (Worker V F A × ℕ)
  get_task_future null t w = elim (Dict.lookup t w.tasks) [
    | none ↦ none
    | some info ↦ elim (Dict.lookup t w.task_futures) [
      | some a ↦ some (w, a)
      | none ↦
          let (m, a) = Futures.get_future t w.future_manager in
          some (
            record w {
              task_futures = Dict.insert t a w.task_futures;
              future_manager =
                  if is_terminal_state info
                  then Futures.complete_from_task_info null t info m
                  else m;
            },
            a,
          )
    ]
  ]

  unfoldable pub start : Worker V F A → Worker V F A
  start w =
      if w.running then w else record w { running = true; worker_pool = Pool.start w.worker_pool }

  -- The callbacks of `WorkerPool.stop` for the executions that it cancels.
  unfoldable pub cancel_stopped : ℕ → List String → Worker V F A → Worker V F A
  cancel_stopped now [] w = w
  cancel_stopped now (t ∷ ts) w =
      cancel_stopped now ts (on_task_cancelled now t "Worker pool shutting down" w)

  -- `stop`, where no other task runs between its steps and no step of it fails.
  unfoldable pub stop : ℕ → Worker V F A → Worker V F A
  unfolding cancel_stopped
  stop now w =
      if not w.running
      then w
      else let m = (Futures.cancel_all_futures w.future_manager).0 in
        let (p, ids) = Pool.stop w.worker_pool in
        let w' =
          cancel_stopped now ids
            (record w { running = false; future_manager = m; worker_pool = p }) in
        record w' { queue = Queue.clear_tracking w'.queue; task_futures = [] }

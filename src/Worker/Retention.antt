-- ===== src/Worker/Retention.antt =====
-- src/async_task_worker/core.py: what `cleanup_old_tasks` removes.
use async_task_worker.Base.{
  ℕ, ◌+◌, ◌*◌, String, ◌≡◌, refl, ap, Bool, true, false, ◌&&◌, ltb, none, some, List, [], ◌∷◌,
  arith, length, if◌then◌else◌, Bool-cases, inl, inr,
}
use async_task_worker.Base.Dict
use async_task_worker.Base.Dict.{Dict, contains, has, IsUnique, delete-IsUnique, length-delete}
use async_task_worker.Status.{
  TaskStatus, pending, running, completed, failed, cancelled, TaskInfo, is_terminal,
  is_terminal_state,
}
use async_task_worker.Worker.{Worker}
use async_task_worker.Worker.Maintenance.{is_old, old_ids, remove_tasks, day, cleanup_old_tasks}

module _ {ℓ} {A : Type ℓ} where
  lookup-remove_tasks :
      (ts : List String) (tasks : Dict A) (n : ℕ) (t : String)
      → Dict.lookup t (remove_tasks ts tasks n).0 ≡ (if has t ts then none else Dict.lookup t tasks)
  unfolding remove_tasks
  lookup-remove_tasks [] tasks n t = refl
  lookup-remove_tasks (u ∷ us) tasks n t = ground (
    arith,
    lookup-remove_tasks us (Dict.delete u tasks) (if contains u tasks then n + 1 else n) t,
    Dict.lookup-delete u t tasks,
  )

  -- Each removal counts one.
  remove_tasks-counts :
      (ts : List String) (tasks : Dict A) (n : ℕ)
      → IsUnique tasks
      → (remove_tasks ts tasks n).1 + length (remove_tasks ts tasks n).0 ≡ n + length tasks
  unfolding remove_tasks
  remove_tasks-counts [] tasks n u = refl
  remove_tasks-counts (t ∷ ts) tasks n u = elim (Bool-cases (contains t tasks)) [
    | inl h ↦
        rw (remove_tasks, h)
          (omega (
            arith,
            remove_tasks-counts ts (Dict.delete t tasks) (n + 1) (delete-IsUnique t tasks u),
            length-delete t tasks u h,
          ))
    | inr h ↦
        rw (remove_tasks, h, Dict.delete_absent_bool t tasks h) (remove_tasks-counts ts tasks n u)
  ]

-- A task id is old if and only if its task is.
has-old_ids :
    {V : Type 0} (now retention : ℕ) (tasks : Dict (TaskInfo V)) (t : String)
    → IsUnique tasks
    → has t (old_ids now retention tasks)
      ≡ elim (Dict.lookup t tasks) [ none ↦ false | some info ↦ is_old now retention info ]
unfolding old_ids Dict.lookup
has-old_ids now retention [] t u = refl
has-old_ids now retention ((j, info) ∷ rest) t u =
    ground (arith, has-old_ids now retention rest t u.1, u.0)

-- A task that has ended, and whose end is more than the days, of 86,400,000 milliseconds, before `now`.
abbrev pub has_ended : TaskStatus → Bool
has_ended pending = false
has_ended running = false
has_ended completed = true
has_ended failed = true
has_ended cancelled = true

abbrev pub ended_before : {V : Type 0} → ℕ → ℕ → TaskInfo V → Bool
ended_before now days info =
    has_ended info.status
    && elim info.completed_at [ none ↦ false | some c ↦ ltb (c + days * 86_400_000) now ]

has_ended_same : (s : TaskStatus) → is_terminal s ≡ has_ended s
unfolding is_terminal
has_ended_same pending = refl
has_ended_same running = refl
has_ended_same completed = refl
has_ended_same failed = refl
has_ended_same cancelled = refl

is_old_same :
    {V : Type 0} (now days : ℕ) (info : TaskInfo V)
    → is_old now (days * day) info ≡ ended_before now days info
unfolding is_old is_terminal_state
is_old_same now days info =
    ap (λ b. b && elim info.completed_at [ none ↦ false | some c ↦ ltb (c + days * day) now ])
      (has_ended_same info.status)

module _ {V F A : Type 0} where
  -- Where a retention is set, and task ids are distinct, `cleanup_old_tasks` removes exactly the
  -- tasks that are completed, failed or cancelled and ended longer ago than the days of the retention, keeps every other task as it was, and answers how many it removed.
  pub cleanup_removes_old :
      (now days : ℕ) (w : Worker V F A)
      → w.task_retention_days ≡ some days
      → IsUnique w.tasks
      → let w' = (cleanup_old_tasks now w).0 in
        ((t : String)
          → Dict.lookup t w'.tasks ≡ elim (Dict.lookup t w.tasks) [
            | none ↦ none
            | some info ↦ if ended_before now days info then none else some info
          ])
        × ((cleanup_old_tasks now w).1 + length w'.tasks ≡ length w.tasks)
  unfolding cleanup_old_tasks
  cleanup_removes_old now days w h u =
      let ids = old_ids now (days * day) w.tasks in
      rw (h, cleanup_old_tasks)
        (
          λ t. ground (
            arith,
            lookup-remove_tasks ids w.tasks 0 t,
            has-old_ids now (days * day) w.tasks t u,
            is_old_same now days,
          ),
          omega (arith, remove_tasks-counts ids w.tasks 0 u),
        )

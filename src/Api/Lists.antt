-- ===== src/Api/Lists.antt =====
-- src/async_task_worker/api.py: what the route that lists tasks answers.
use async_task_worker.Base.{
  ℕ, ◌*◌, ◌-◌, ◌≤◌, ◌≡◌, refl, sym, ap, ◌∙◌, ◌+◌, ◌∷◌, [], ◌⊎◌, inl, inr, Bool, true, not, ◌&&◌,
  ltb, ◌==◌, All-map, Option, none, some, List, map, length, arith, All, zero, suc,
}
use async_task_worker.Base.Dict.{Dict}
use async_task_worker.Status.{TaskStatus, TaskInfo, status_code}
use async_task_worker.Worker.{Worker}
use async_task_worker.Worker.Maintenance.{skipped, get_all_tasks}
use async_task_worker.Worker.Listing.{
  IsNewestFirst, count, count_tasks, listing_complete, listing_limited, listing_within,
}
use async_task_worker.Api.{Response, success, http_error, response_of}
use async_task_worker.Api.Tasks.{TaskListResponse, listed, list_tasks}

-- The time before which a task must have been created.
abbrev pub cutoff_of : ℕ → Option ℕ → Option ℕ
cutoff_of now none = none
cutoff_of now (some zero) = none
cutoff_of now (some (suc m)) = some (now - suc m * 60000)

-- What is asked for: the status, where one is given, and a creation more than the minutes ago, where
-- they are given and not 0.
abbrev pub has_status : {V : Type 0} → Option TaskStatus → TaskInfo V → Bool
has_status none i = true
has_status (some s) i = status_code s == status_code i.status

abbrev pub is_aged : {V : Type 0} → ℕ → Option ℕ → TaskInfo V → Bool
is_aged now none i = true
is_aged now (some zero) i = true
is_aged now (some (suc m)) i = ltb (i.created_at + suc m * 60_000) now

abbrev pub is_wanted : {V : Type 0} → ℕ → Option TaskStatus → Option ℕ → TaskInfo V → Bool
is_wanted now task_status minutes i = has_status task_status i && is_aged now minutes i

module _ {V : Type 0} where
  skipped-unwanted :
      (now : ℕ) (task_status : Option TaskStatus) (minutes : Option ℕ) (i : TaskInfo V)
      → elim minutes [ none ↦ 0 | some m ↦ m ] * 60000 ≤ now
      → not (skipped task_status (cutoff_of now minutes) i) ≡ is_wanted now task_status minutes i
  unfolding skipped
  skipped-unwanted now none none i h = refl
  skipped-unwanted now none (some zero) i h = refl
  skipped-unwanted now none (some (suc m)) i h = ground (arith, h)
  skipped-unwanted now (some s) none i h = ground arith
  skipped-unwanted now (some s) (some zero) i h = ground arith
  skipped-unwanted now (some s) (some (suc m)) i h = ground (arith, h)

  count_tasks-same :
      (f g : TaskInfo V → Bool) (tasks : Dict (TaskInfo V))
      → ((i : TaskInfo V) → f i ≡ g i)
      → count_tasks f tasks ≡ count_tasks g tasks
  count_tasks-same f g [] h = refl
  count_tasks-same f g ((t, i) ∷ rest) h = rw (h i, count_tasks-same f g rest h)

  -- What `list_tasks` must answer.
  abbrev pub Lists :
      ℕ
      → Option TaskStatus
      → ℕ
      → Option ℕ
      → Dict (TaskInfo V)
      → Response (TaskListResponse V)
      → Type 0
  Lists now task_status limit minutes known (http_error code) = ⊥
  Lists now task_status limit minutes known (success answer) =
      (tasks : List (TaskInfo V)) × (answer.tasks ≡ map response_of tasks)
      × (answer.count ≡ length tasks)
      × (length tasks ≤ limit)
      × IsNewestFirst tasks
      × All (λ i. is_wanted now task_status minutes i ≡ true) tasks
      × ((p : TaskInfo V → Bool)
          → count p tasks ≤ count_tasks (λ i. is_wanted now task_status minutes i && p i) known)
      × ((length tasks ≡ limit)
          ⊎ ((p : TaskInfo V → Bool)
              → count p tasks
                ≡ count_tasks (λ i. is_wanted now task_status minutes i && p i) known))

module _ {V F A : Type 0} where
  list_tasks-listed :
      (now : ℕ) (task_status : Option TaskStatus) (limit : ℕ) (minutes : Option ℕ)
      (w : Worker V F A)
      → elim minutes [ none ↦ 0 | some m ↦ m ] * 60000 ≤ now
      → list_tasks now task_status limit minutes w
        ≡ success (listed (get_all_tasks task_status (some limit) (cutoff_of now minutes) w))
  unfolding list_tasks
  list_tasks-listed now task_status limit none w h = refl
  list_tasks-listed now task_status limit (some zero) w h = refl
  list_tasks-listed now task_status limit (some (suc m)) w h = ground (arith, h)

  -- For a limit that is not 0 and an age that does not go back beyond the first time, the route
  -- answers tasks newest first, at most as many as the limit, and the count is their number. They are
  -- tasks of the worker, each listed once, that have the status that is asked for and were created
  -- more than the minutes ago, where 0 minutes ask for no age; and if they are fewer than the limit,
  -- all such tasks are among them.
  pub list_tasks-Lists :
      (now : ℕ) (task_status : Option TaskStatus) (limit : ℕ) (minutes : Option ℕ)
      (w : Worker V F A)
      → 1 ≤ limit
      → elim minutes [ none ↦ 0 | some m ↦ m ] * 60000 ≤ now
      → Lists now task_status limit minutes w.tasks (list_tasks now task_status limit minutes w)
  unfolding listed
  list_tasks-Lists now task_status limit minutes w l h =
      let cutoff = cutoff_of now minutes in
      let same = λ (p : TaskInfo V → Bool).
        count_tasks-same (λ i. not (skipped task_status cutoff i) && p i)
          (λ i. is_wanted now task_status minutes i && p i) w.tasks
          (λ i. ap (λ b. b && p i) (skipped-unwanted now task_status minutes i h)) in
      let (within, ends) = listing_within task_status cutoff limit w l in
      let (newest, wanted, _) = listing_complete task_status cutoff (some limit) w in
      rw (list_tasks-listed now task_status limit minutes w h) (
        get_all_tasks task_status (some limit) cutoff w,
        refl,
        refl,
        omega (arith, l, listing_limited task_status cutoff limit w),
        newest,
        All-map _ _ (get_all_tasks task_status (some limit) cutoff w)
            (λ i k. sym (skipped-unwanted now task_status minutes i h) ∙ ap not k) wanted,
        λ p. omega (arith, within p, same p),
        elim ends [ inl e ↦ inl e | inr e ↦ inr (λ p. e p ∙ same p) ],
      )

-- ===== src/Worker/Listing.antt =====
-- src/async_task_worker/core.py: what `get_all_tasks` answers.
use async_task_worker.Base.{
  ℕ, suc, ◌+◌, ◌-◌, ◌≤◌, ◌<◌, ◌⊎◌, ap, max, ◌≡◌, refl, Bool, false, not, ◌&&◌, Option, none, some,
  List, [], ◌∷◌, arith, length, if◌then◌else◌, leb, Bool-cases, inl, inr, All, All-map, ◌∙◌,
}
use async_task_worker.Base.Dict.{Dict}
use async_task_worker.Status.{TaskStatus, TaskInfo}
use async_task_worker.Worker.{Worker}
use async_task_worker.Worker.Maintenance.{
  skipped, reached, select, insert_newest, sort_newest, get_all_tasks,
}

module _ {V : Type 0} where
  abbrev pub IsNewestFirst : List (TaskInfo V) → Type 0
  IsNewestFirst [] = Unit
  IsNewestFirst (x ∷ xs) = All (λ y. y.created_at ≤ x.created_at) xs × IsNewestFirst xs

  All-insert :
      (P : TaskInfo V → Type 0) (x : TaskInfo V) (xs : List (TaskInfo V))
      → P x
      → All P xs
      → All P (insert_newest x xs)
  unfolding insert_newest
  All-insert P x [] h k = (h, tt)
  All-insert P x (y ∷ ys) h k = elim (Bool-cases (leb y.created_at x.created_at)) [
    | inl e ↦ rw e (h, k)
    | inr e ↦ rw e (k.0, All-insert P x ys h k.1)
  ]

  All-sort : (P : TaskInfo V → Type 0) (xs : List (TaskInfo V)) → All P xs → All P (sort_newest xs)
  unfolding sort_newest
  All-sort P [] h = tt
  All-sort P (x ∷ xs) h = All-insert P x (sort_newest xs) h.0 (All-sort P xs h.1)

  insert-IsNewestFirst :
      (x : TaskInfo V) (xs : List (TaskInfo V))
      → IsNewestFirst xs
      → IsNewestFirst (insert_newest x xs)
  unfolding insert_newest
  insert-IsNewestFirst x [] s = (tt, tt)
  insert-IsNewestFirst x (y ∷ ys) s = elim (Bool-cases (leb y.created_at x.created_at)) [
    | inl e ↦ rw e ((ground (arith, e), All-map _ _ ys (λ z k. ground (arith, e, k)) s.0), s)
    | inr e ↦ rw e (All-insert _ x ys (ground (arith, e)) s.0, insert-IsNewestFirst x ys s.1)
  ]

  sort-IsNewestFirst : (xs : List (TaskInfo V)) → IsNewestFirst (sort_newest xs)
  unfolding sort_newest
  sort-IsNewestFirst [] = tt
  sort-IsNewestFirst (x ∷ xs) = insert-IsNewestFirst x (sort_newest xs) (sort-IsNewestFirst xs)

  -- How many of a list pass a test.
  abbrev pub count : (TaskInfo V → Bool) → List (TaskInfo V) → ℕ
  count p [] = 0
  count p (x ∷ xs) = let n = count p xs in if p x then suc n else n

  abbrev pub count_tasks : (TaskInfo V → Bool) → Dict (TaskInfo V) → ℕ
  count_tasks p [] = 0
  count_tasks p ((t, x) ∷ rest) = let n = count_tasks p rest in if p x then suc n else n

  count-insert :
      (p : TaskInfo V → Bool) (x : TaskInfo V) (xs : List (TaskInfo V))
      → count p (insert_newest x xs) ≡ count p (x ∷ xs)
  unfolding insert_newest
  count-insert p x [] = refl
  count-insert p x (y ∷ ys) = ground (arith, count-insert p x ys)

  count-sort :
      (p : TaskInfo V → Bool) (xs : List (TaskInfo V)) → count p (sort_newest xs) ≡ count p xs
  unfolding sort_newest
  count-sort p [] = refl
  count-sort p (x ∷ xs) = ground (arith, count-sort p xs, count-insert p x (sort_newest xs))

  length-insert :
      (x : TaskInfo V) (xs : List (TaskInfo V)) → length (insert_newest x xs) ≡ suc (length xs)
  unfolding insert_newest
  length-insert x [] = refl
  length-insert x (y ∷ ys) = ground (arith, length-insert x ys)

  length-sort : (xs : List (TaskInfo V)) → length (sort_newest xs) ≡ length xs
  unfolding sort_newest
  length-sort [] = refl
  length-sort (x ∷ xs) = ground (arith, length-sort xs, length-insert x (sort_newest xs))

  module _ (status : Option TaskStatus) (cutoff : Option ℕ) where
    select-wanted :
        (limit : Option ℕ) (tasks : Dict (TaskInfo V)) (n : ℕ)
        → All (λ i. skipped status cutoff i ≡ false) (select status cutoff limit tasks n)
    unfolding select
    select-wanted limit [] n = tt
    select-wanted limit ((t, info) ∷ rest) n = elim (Bool-cases (skipped status cutoff info)) [
      | inl h ↦ rw (select, h) (select-wanted limit rest n)
      | inr h ↦ elim (Bool-cases (reached limit (n + 1))) [
        | inl k ↦ rw (select, h, k) (h, tt)
        | inr k ↦ rw (select, h, k) (h, select-wanted limit rest (n + 1))
      ]
    ]

    length-select :
        (limit : ℕ) (tasks : Dict (TaskInfo V)) (n : ℕ)
        → length (select status cutoff (some limit) tasks n) ≤ max (limit - n) 1
    unfolding select
    length-select limit [] n = omega arith
    length-select limit ((t, info) ∷ rest) n =
        ground (arith, length-select limit rest n, length-select limit rest (n + 1))

    count-select :
        (p : TaskInfo V → Bool) (tasks : Dict (TaskInfo V)) (n : ℕ)
        → count p (select status cutoff none tasks n)
          ≡ count_tasks (λ i. not (skipped status cutoff i) && p i) tasks
    unfolding select
    count-select p [] n = refl
    count-select p ((t, info) ∷ rest) n =
        ground (arith, count-select p rest n, count-select p rest (n + 1))

    count-selected :
        (p : TaskInfo V → Bool) (limit : Option ℕ) (tasks : Dict (TaskInfo V)) (n : ℕ)
        → count p (select status cutoff limit tasks n)
          ≤ count_tasks (λ i. not (skipped status cutoff i) && p i) tasks
    unfolding select
    count-selected p limit [] n = omega arith
    count-selected p limit ((t, info) ∷ rest) n =
        ground (arith, count-selected p limit rest n, count-selected p limit rest (n + 1))

    -- The loop ends at the limit, or has seen all tasks.
    select-ends :
        (limit : ℕ) (tasks : Dict (TaskInfo V)) (n : ℕ)
        → n < limit
        → (length (select status cutoff (some limit) tasks n) + n ≡ limit)
          ⊎ ((p : TaskInfo V → Bool)
              → count p (select status cutoff (some limit) tasks n)
                ≡ count_tasks (λ i. not (skipped status cutoff i) && p i) tasks)
    unfolding select
    select-ends limit [] n h = inr (λ p. refl)
    select-ends limit ((t, info) ∷ rest) n h = elim (Bool-cases (skipped status cutoff info)) [
      | inl k ↦ elim (select-ends limit rest n h) [
        | inl e ↦ inl (rw (select, k) e)
        | inr e ↦ inr (λ p. rw (select, k) (e p))
      ]
      | inr k ↦ elim (Bool-cases (leb limit (n + 1))) [
        | inl r ↦ inl (rw (select, k, r) (ground (arith, r, h)))
        | inr r ↦ elim (select-ends limit rest (n + 1) (ground (arith, r))) [
          | inl e ↦ inl (rw (select, k, r) (omega (arith, e)))
          | inr e ↦ inr (λ p. rw (select, k, r) (ap (λ c. if p info then suc c else c) (e p)))
        ]
      ]
    ]

module _ {V F A : Type 0} where
  -- What is listed with a limit: tasks of the worker, each as often as it is there; and either as many
  -- as the limit, or all that are let through.
  pub listing_within :
      (status : Option TaskStatus) (cutoff : Option ℕ) (limit : ℕ) (w : Worker V F A)
      → 1 ≤ limit
      → ((p : TaskInfo V → Bool)
          → count p (get_all_tasks status (some limit) cutoff w)
            ≤ count_tasks (λ i. not (skipped status cutoff i) && p i) w.tasks)
        × ((length (get_all_tasks status (some limit) cutoff w) ≡ limit)
            ⊎ ((p : TaskInfo V → Bool)
                → count p (get_all_tasks status (some limit) cutoff w)
                  ≡ count_tasks (λ i. not (skipped status cutoff i) && p i) w.tasks))
  unfolding get_all_tasks
  listing_within status cutoff limit w h =
      let xs = select status cutoff (some limit) w.tasks 0 in
      (
        λ p. omega (arith, count-sort p xs, count-selected status cutoff p (some limit) w.tasks 0),
        elim (select-ends status cutoff limit w.tasks 0 h) [
          | inl e ↦ inl (omega (arith, length-sort xs, e))
          | inr e ↦ inr (λ p. count-sort p xs ∙ e p)
        ],
      )

  -- `get_all_tasks` lists tasks newest first, and only tasks that the status and the age that are
  -- asked for let through; with no limit it lists each of them once.
  pub listing_complete :
      (status : Option TaskStatus) (cutoff limit : Option ℕ) (w : Worker V F A)
      → IsNewestFirst (get_all_tasks status limit cutoff w)
        × All (λ i. skipped status cutoff i ≡ false) (get_all_tasks status limit cutoff w)
        × ((p : TaskInfo V → Bool)
            → count p (get_all_tasks status none cutoff w)
              ≡ count_tasks (λ i. not (skipped status cutoff i) && p i) w.tasks)
  unfolding get_all_tasks
  listing_complete status cutoff limit w = (
    sort-IsNewestFirst (select status cutoff limit w.tasks 0),
    All-sort _ (select status cutoff limit w.tasks 0) (select-wanted status cutoff limit w.tasks 0),
    λ p.
        count-sort p (select status cutoff none w.tasks 0) ∙ count-select status cutoff p w.tasks 0,
  )

  -- `get_all_tasks` keeps a limit that is not 0; for the limit 0 it lists one task at most.
  pub listing_limited :
      (status : Option TaskStatus) (cutoff : Option ℕ) (limit : ℕ) (w : Worker V F A)
      → length (get_all_tasks status (some limit) cutoff w) ≤ max limit 1
  unfolding get_all_tasks
  listing_limited status cutoff limit w =
      rw (length-sort (select status cutoff (some limit) w.tasks 0))
        (omega (arith, length-select status cutoff limit w.tasks 0))

-- ===== src/Worker/AwaitedAny.antt =====
-- src/async_task_worker/core.py: what `wait_for_any_task` answers.
use async_task_worker.Base.{
  ℕ, String, ◌≡◌, refl, sym, ap, ◌∙◌, true, Option, none, some, List, [], ◌∷◌, All, arith,
  Option-cases, inl, inr, ◌⊎◌, str_dec, if_pos,
}
use mathlib.Core.Path.{subst}
use async_task_worker.Base.Dict
use async_task_worker.Base.Dict.{contains, has}
use async_task_worker.Futures.{Future, resolved}
use async_task_worker.Worker.{Worker}
use async_task_worker.Worker.Waits.{
  Waited, results, completed_result, first_completed, map_futures, done_futures, result_of,
  at_timeout, wait_for_any_task, wait_for_first, unknown_task, no_task_ids,
}
use async_task_worker.Worker.Fetched.{future_of}
use async_task_worker.Worker.Asked.{
  All-done, some_inj, results_inj, unanswered, none-ne-some, result_of-results, asks_each, Asked,
  map_futures-Asked,
}

module _ {V F A : Type 0} (null : V) where
  -- What is known of an answer: the id was asked for, and its result was there or its future was
  -- resolved with it.
  abbrev pub Answers :
      List String → Worker V F A → Worker V F A → (ℕ → Option (Future V)) → V → String → Type 0
  Answers ids w w' future v t =
      (has t ids ≡ true)
      × ((completed_result null (Dict.lookup t w.tasks) ≡ some v)
          ⊎ (future_of null w' future t ≡ some (resolved v)))

  first_completed-nil : (w : Worker V F A) → first_completed null [] w ≡ none
  unfolding first_completed
  first_completed-nil w = refl

  first_completed-skip :
      (i : String) (is : List String) (w : Worker V F A)
      → completed_result null (Dict.lookup i w.tasks) ≡ none
      → first_completed null (i ∷ is) w ≡ first_completed null is w
  unfolding first_completed
  first_completed-skip i is w h = rw (h, first_completed)

  first_completed-takes :
      (i : String) (is : List String) (w : Worker V F A) (v : V)
      → completed_result null (Dict.lookup i w.tasks) ≡ some v
      → first_completed null (i ∷ is) w ≡ some (v, i)
  unfolding first_completed
  first_completed-takes i is w v h = rw (h, first_completed)

  first_completed-found :
      (ids : List String) (w : Worker V F A) (v : V) (t : String)
      → first_completed null ids w ≡ some (v, t)
      → (has t ids ≡ true) × (completed_result null (Dict.lookup t w.tasks) ≡ some v)
  first_completed-found [] w v t h = absurd (none-ne-some (sym (first_completed-nil w) ∙ h))
  first_completed-found (i ∷ is) w v t h =
      elim (Option-cases (completed_result null (Dict.lookup i w.tasks))) [
        | inl n ↦
            let (later, value) =
              first_completed-found is w v t (sym (first_completed-skip i is w n) ∙ h) in
            (ground (arith, later), value)
        | inr (u, e) ↦
            subst
              (λ (p : V × String).
                (has p.1 (i ∷ is) ≡ true)
                × (completed_result null (Dict.lookup p.1 w.tasks) ≡ some p.0))
              (some_inj (sym (first_completed-takes i is w u e) ∙ h))
              (if_pos (str_dec i i) refl true (has i is), e)
      ]

  picked-Answers :
      (ids : List String) (w w' : Worker V F A) (future : ℕ → Option (Future V)) (p : ℕ × String)
      (v : V) (t : String)
      → Asked null ids w' p
      → result_of (future p.0) p.1 ≡ results (v, t)
      → Answers ids w w' future v t
  picked-Answers ids w w' future (a, i) v t (here, found) h =
      let (same, value) = result_of-results (future a) i t v h in
      (
        ap (λ j. has j ids) (sym same) ∙ here,
        inr (
            subst (λ j. future_of null w' future j ≡ some (resolved v)) same
              (rw (found, future_of) value)),
      )

  -- The answer from the futures that are done.
  from_done :
      (timeout : Option ℕ) (pick : ℕ × String → List (ℕ × String) → ℕ × String)
      (future : ℕ → Option (Future V)) (ids : List String) (w w' : Worker V F A)
      (ds : List (ℕ × String)) (v : V) (t : String)
      → ((P : ℕ × String → Type 0) (d : ℕ × String) (rest : List (ℕ × String))
          → P d
          → All P rest
          → P (pick d rest))
      → All (Asked null ids w') ds
      → ◌≡◌ {A = Waited (V × String)}
          (elim ds [
            | [] ↦ at_timeout timeout
            | d ∷ rest ↦ let (a, i) = pick d rest in result_of (future a) i
          ])
          (results (v, t))
      → Answers ids w w' future v t
  from_done none pick future ids w w' [] v t in_set h e = cc
  from_done (some n) pick future ids w w' [] v t in_set h e = cc
  from_done timeout pick future ids w w' (d ∷ rest) v t in_set (h, hs) e =
      picked-Answers ids w w' future (pick d rest) v t (in_set (Asked null ids w') d rest h hs) e

  wait_for_any_task-empty :
      (timeout : Option ℕ) (later : Worker V F A → ℕ → Option (Future V))
      (pick : ℕ × String → List (ℕ × String) → ℕ × String) (w : Worker V F A)
      → wait_for_any_task null timeout later pick [] w ≡ (w, no_task_ids)
  unfolding wait_for_any_task
  wait_for_any_task-empty timeout later pick w = refl

  wait_for_any_task-stored :
      (timeout : Option ℕ) (later : Worker V F A → ℕ → Option (Future V))
      (pick : ℕ × String → List (ℕ × String) → ℕ × String) (i : String) (is : List String)
      (w : Worker V F A) (r : V × String)
      → first_completed null (i ∷ is) w ≡ some r
      → wait_for_any_task null timeout later pick (i ∷ is) w ≡ (w, results r)
  unfolding wait_for_any_task
  wait_for_any_task-stored timeout later pick i is w r h = rw (h, wait_for_any_task)

  wait_for_any_task-first :
      (timeout : Option ℕ) (later : Worker V F A → ℕ → Option (Future V))
      (pick : ℕ × String → List (ℕ × String) → ℕ × String) (i : String) (is : List String)
      (w : Worker V F A)
      → first_completed null (i ∷ is) w ≡ none
      → wait_for_any_task null timeout later pick (i ∷ is) w
        ≡ wait_for_first null timeout later pick (i ∷ is) w
  unfolding wait_for_any_task
  wait_for_any_task-first timeout later pick i is w h = rw (h, wait_for_any_task)

  -- The second half of `wait_for_any_task` as a function of the futures that were fetched.
  abbrev first_of :
      Option ℕ
      → (Worker V F A → ℕ → Option (Future V))
      → (ℕ × String → List (ℕ × String) → ℕ × String)
      → Worker V F A × Option (List (ℕ × String))
      → Worker V F A × Waited (V × String)
  first_of timeout later pick r = (
    r.0,
    elim r.1 [
      | none ↦ unknown_task
      | some fs ↦ elim (done_futures (later r.0) fs) [
        | [] ↦ at_timeout timeout
        | d ∷ ds ↦ let (a, i) = pick d ds in result_of (later r.0 a) i
      ]
    ],
  )

  first_of-Answers :
      (timeout : Option ℕ) (later : Worker V F A → ℕ → Option (Future V))
      (pick : ℕ × String → List (ℕ × String) → ℕ × String) (ids : List String) (w w' : Worker V F A)
      (futures : Option (List (ℕ × String))) (v : V) (t : String)
      → ((P : ℕ × String → Type 0) (d : ℕ × String) (rest : List (ℕ × String))
          → P d
          → All P rest
          → P (pick d rest))
      → map_futures null ids [] w ≡ (w', futures)
      → (first_of timeout later pick (w', futures)).1 ≡ results (v, t)
      → Answers ids w w' (later w') v t
  first_of-Answers timeout later pick ids w w' none v t in_set got h = cc
  first_of-Answers timeout later pick ids w w' (some fs) v t in_set got h =
      from_done timeout pick (later w') ids w w' (done_futures (later w') fs) v t in_set
        (All-done (Asked null ids w') (later w') fs
          (map_futures-Asked null ids ids [] w w' fs (asks_each ids) tt got))
        h

  wait_for_first-Answers :
      (timeout : Option ℕ) (later : Worker V F A → ℕ → Option (Future V))
      (pick : ℕ × String → List (ℕ × String) → ℕ × String) (ids : List String) (w : Worker V F A)
      (v : V) (t : String)
      → ((P : ℕ × String → Type 0) (d : ℕ × String) (rest : List (ℕ × String))
          → P d
          → All P rest
          → P (pick d rest))
      → (wait_for_first null timeout later pick ids w).1 ≡ results (v, t)
      → Answers ids w
          (wait_for_first null timeout later pick ids w).0
          (later (wait_for_first null timeout later pick ids w).0)
          v
          t
  unfolding wait_for_first
  wait_for_first-Answers timeout later pick ids w v t in_set h =
      first_of-Answers timeout later pick ids w (map_futures null ids [] w).0
        (map_futures null ids [] w).1 v t in_set refl h

  -- Whatever future `asyncio.wait` gives first, an answer of `wait_for_any_task` is a result of a task
  -- that was asked for: the stored result of a completed one, or the value of its future.
  pub wait_for_any_task-Answers :
      (timeout : Option ℕ) (later : Worker V F A → ℕ → Option (Future V))
      (pick : ℕ × String → List (ℕ × String) → ℕ × String) (ids : List String) (w : Worker V F A)
      (v : V) (t : String)
      → ((P : ℕ × String → Type 0) (d : ℕ × String) (rest : List (ℕ × String))
          → P d
          → All P rest
          → P (pick d rest))
      → (wait_for_any_task null timeout later pick ids w).1 ≡ results (v, t)
      → Answers ids w
          (wait_for_any_task null timeout later pick ids w).0
          (later (wait_for_any_task null timeout later pick ids w).0)
          v
          t
  wait_for_any_task-Answers timeout later pick [] w v t in_set h = absurd (
      unanswered (
        sym (
          ap (λ (q : Worker V F A × Waited (V × String)). q.1)
            (wait_for_any_task-empty timeout later pick w))
        ∙ h))
  wait_for_any_task-Answers timeout later pick (i ∷ is) w v t in_set h =
      elim (Option-cases (first_completed null (i ∷ is) w)) [
        | inr ((u, j), e) ↦
            let q =
              ap (λ (q : Worker V F A × Waited (V × String)). q.1)
                (wait_for_any_task-stored timeout later pick i is w (u, j) e) in
            let (here, value) =
              first_completed-found (i ∷ is) w v t (e ∙ ap some (results_inj (sym q ∙ h))) in
            (here, inl value)
        | inl e ↦
            subst
              (λ (q : Worker V F A × Waited (V × String)). Answers (i ∷ is) w q.0 (later q.0) v t)
              (sym (wait_for_any_task-first timeout later pick i is w e))
              (wait_for_first-Answers timeout later pick (i ∷ is) w v t in_set (
                sym (
                  ap (λ (q : Worker V F A × Waited (V × String)). q.1)
                    (wait_for_any_task-first timeout later pick i is w e))
                ∙ h))
      ]

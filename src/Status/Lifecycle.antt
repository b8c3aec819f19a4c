-- ===== src/Status/Lifecycle.antt =====
-- The life of a task in src/async_task_worker/status.py: the `mark_…` methods in any order.
use async_task_worker.Base.{
  ℕ, String, ◌≡◌, refl, Bool, true, false, Option, none, List, [], ◌∷◌, arith, Bool-cases, inl, ◌∙◌,
  inr, All,
}
use async_task_worker.Base.Dict.{Dict, is_some}
use async_task_worker.Base.Int.{ℤ}
use async_task_worker.Status.{
  pending, running, completed, failed, TaskInfo, is_terminal, is_terminal_state, new_task,
  mark_started, mark_completed, mark_failed, mark_cancelled, update_progress,
}

-- A call of a method, with its reading of the clock.
pub data Event (V : Type 0) : Type 0 where
  start : ℕ → Event V
  complete : ℕ → V → Event V
  fail : ℕ → String → Event V
  cancel : ℕ → Option String → Event V
  report : ℕ → ℤ → Event V

module _ {V : Type 0} where
  unfoldable pub apply : Event V → TaskInfo V → TaskInfo V
  apply (start now) = mark_started now
  apply (complete now result) = mark_completed now result
  apply (fail now error) = mark_failed now error
  apply (cancel now reason) = mark_cancelled now reason
  apply (report now value) = update_progress now value

  unfoldable pub run : List (Event V) → TaskInfo V → TaskInfo V
  unfolding apply
  run [] info = info
  run (e ∷ es) info = run es (apply e info)

  -- What the fields say in each state.
  pub record IsStamped (info : TaskInfo V) : Type 0 where
    pub fresh :
        info.status ≡ pending
        → (info.started_at ≡ none)
          × (info.completed_at ≡ none)
          × (info.result ≡ none)
          × (info.error ≡ none)
    pub begun : info.status ≡ running → is_some info.started_at ≡ true
    pub ended : is_terminal info.status ≡ true → is_some info.completed_at ≡ true
    pub answered : info.status ≡ completed → is_some info.result ≡ true
    pub explained : info.status ≡ failed → is_some info.error ≡ true

  apply-IsStamped : (e : Event V) (info : TaskInfo V) → IsStamped info → IsStamped (apply e info)
  unfolding apply mark_started mark_completed mark_failed mark_cancelled update_progress is_terminal
      is_terminal_state
  apply-IsStamped (start now) info s = ground arith
  apply-IsStamped (complete now result) info s = elim (Bool-cases (is_terminal info.status)) [
    | inl h ↦ rw h s
    | inr h ↦ rw h (ground arith)
  ]
  apply-IsStamped (fail now error) info s = ground arith
  apply-IsStamped (cancel now reason) info s = ground arith
  apply-IsStamped (report now value) info s = record {
    fresh = s.fresh;
    begun = s.begun;
    ended = s.ended;
    answered = s.answered;
    explained = s.explained;
  }

  run-IsStamped :
      (es : List (Event V)) (info : TaskInfo V) → IsStamped info → IsStamped (run es info)
  unfolding run
  run-IsStamped [] info s = s
  run-IsStamped (e ∷ es) info s = run-IsStamped es (apply e info) (apply-IsStamped e info s)

  -- Whatever methods are called on a new task: while it is pending it has no start, end, result and error,
  -- a running task has its start, a terminal one its end, a completed one a result, which may be
  -- Python's None, and a failed one an error.
  pub life_stamps :
      (id : String) (now : ℕ) (metadata : Dict V) (es : List (Event V))
      → IsStamped (run es (new_task id now metadata))
  unfolding new_task is_terminal
  life_stamps id now metadata es = run-IsStamped es _ (ground arith)

  abbrev pub is_start : Event V → Bool
  is_start (start _) = true
  is_start _ = false

  apply_terminal :
      (e : Event V) (info : TaskInfo V)
      → is_start e ≡ false
      → is_terminal info.status ≡ true
      → (is_terminal (apply e info).status ≡ true)
        × ((apply e info).result ≡ info.result)
        × ((apply e info).status ≡ completed → info.status ≡ completed)
  unfolding apply mark_completed mark_failed mark_cancelled update_progress is_terminal
      is_terminal_state
  apply_terminal (start now) info n h = cc
  apply_terminal (complete now result) info n h = rw h (h, refl, λ e. e)
  apply_terminal (fail now error) info n h = (refl, refl, λ e. cc)
  apply_terminal (cancel now reason) info n h = (refl, refl, λ e. cc)
  apply_terminal (report now value) info n h = (h, refl, λ e. e)

  -- A task in a terminal state stays in one until it is marked as started again: it keeps its
  -- result, and it is completed afterwards only if it was before.
  pub terminal_persists :
      (es : List (Event V)) (info : TaskInfo V)
      → All (λ e. is_start e ≡ false) es
      → is_terminal_state info ≡ true
      → (is_terminal_state (run es info) ≡ true)
        × ((run es info).result ≡ info.result)
        × ((run es info).status ≡ completed → info.status ≡ completed)
  unfolding run is_terminal_state
  terminal_persists [] info n h = (h, refl, λ e. e)
  terminal_persists (e ∷ es) info n h =
      let a = apply_terminal e info n.0 h in
      let b = terminal_persists es (apply e info) n.1 a.0 in (b.0, b.1 ∙ a.1, λ c. a.2 (b.2 c))

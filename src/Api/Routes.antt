-- ===== src/Api/Routes.antt =====
-- src/async_task_worker/api.py: what the routes answer.
use Prim.Native.String.{◌++◌}
use package.text.Mathlib.TextLemmas.{nil-append, cons-append}
use async_task_worker.Base.{
  ℕ, String, ◌≡◌, refl, ap, Bool, true, false, Option, none, some, List, arith, if◌then◌else◌,
  str_dec, if_pos, if_neg, Option-cases, inl, inr,
}
use async_task_worker.Status.{TaskInfo, is_terminal_state}
use async_task_worker.Exceptions.{str, category_name, task_cancellation_error}
use async_task_worker.Worker
use async_task_worker.Worker.{Worker, get_task_info}
use async_task_worker.Api.{
  found_in, not_found, Response, success, http_error, get_task, cancel_task, missing_task,
  TaskResponse, response_of, map_error_to_status_code,
}

-- Words that stand in a text stand in every text that ends with it.
found_in-append : (ps : List ℕ) (a b : String) → found_in ps b ≡ true → found_in ps (a ++ b) ≡ true
unfolding found_in
found_in-append ps String.[] b h = rw (nil-append b) h
found_in-append ps (String.◌∷◌ c a) b h =
    rw (cons-append c a b) (ground (arith, found_in-append ps a b h))

-- The text of the error without the task's id in front.
abbrev base_text : String → String
base_text t = "[ErrorCategory." ++ "RESOURCE" ++ "] " ++ "Task " ++ t ++ " not found"

said_in : (t : String) → found_in not_found (base_text t) ≡ true
unfolding found_in
said_in t =
    found_in-append not_found "[ErrorCategory." ("RESOURCE" ++ "] " ++ "Task " ++ t ++ " not found")
      (found_in-append not_found "RESOURCE" ("] " ++ "Task " ++ t ++ " not found") (
        found_in-append not_found "] " ("Task " ++ t ++ " not found") (
          found_in-append not_found "Task " (t ++ " not found")
            (found_in-append not_found t " not found" refl))))

-- The text of the routes' error for a missing task says "not found", whatever the task's id is.
missing_task-found_in : (t : String) → found_in not_found (str (missing_task t)) ≡ true
unfolding str missing_task category_name
missing_task-found_in t = elim (str_dec t "") [
  | yes e ↦ rw (if_pos (str_dec t "") e) (said_in t)
  | no n ↦ rw (if_neg (str_dec t "") n) (
      found_in-append not_found "Task " (t ++ ": " ++ base_text t) (
        found_in-append not_found t (": " ++ base_text t)
          (found_in-append not_found ": " (base_text t) (said_in t))))
]

module _ {V F A : Type 0} where
  -- What the routes of a task must answer.
  abbrev pub Answered :
      Option (TaskInfo V)
      → Response (TaskResponse V)
      → Worker V F A × Response (Unit {0})
      → Worker V F A
      → Worker V F A × Bool
      → Type 0
  Answered none read (w', deleted) w (w1, cancelled) =
      (read ≡ http_error 404) × (w' ≡ w) × (deleted ≡ http_error 404)
  Answered (some info) read (w', deleted) w (w1, cancelled) =
      (read ≡ success (response_of info))
      × ((is_terminal_state info ≡ true → (w' ≡ w) × (deleted ≡ success tt))
          × (is_terminal_state info ≡ false
              → (w' ≡ w1) × (deleted ≡ (if cancelled then success tt else http_error 409))))

  -- The routes that read and cancel a task answer 404 for an unknown task, whatever its id is, and
  -- change nothing. The route answers the fields of a known task; the cancellation of one that has ended succeeds
  -- and changes nothing, and that of another succeeds or answers 409 as the worker's `cancel_task`
  -- cancels it or not.
  pub routes_answer :
      (now later : ℕ) (t : String) (w : Worker V F A)
      → Answered
          (get_task_info t w)
          (get_task t w)
          (cancel_task now later t w)
          w
          (Worker.cancel_task now later t w)
  unfolding get_task cancel_task map_error_to_status_code task_cancellation_error missing_task
  routes_answer now later t w = elim (Option-cases (get_task_info t w)) [
    | inl e ↦
        rw (get_task, cancel_task, e)
          (
            ap (λ b. http_error (if b then 404 else 503)) (missing_task-found_in t),
            refl,
            ap (λ b. http_error (if b then 404 else 503)) (missing_task-found_in t),
          )
    | inr (info, e) ↦
        rw (get_task, cancel_task, e) (refl, (λ h. ground (arith, h), λ h. ground (arith, h)))
  ]

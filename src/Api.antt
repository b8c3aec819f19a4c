-- ===== src/Api.antt =====
-- src/async_task_worker/api.py: the status codes of errors, and the routes that read and cancel a task, as
-- functions of the worker. FastAPI's decoding of a request and encoding of a response are left out.
mod Routes
pub mod Tasks
mod Accepts
mod Lists
mod Tests
use Prim.Native.Char.{Char, code}
use Prim.Native.String.{◌++◌}
use async_task_worker.Base.{
  ℕ, ◌+◌, String, Bool, true, false, ◌&&◌, ◌||◌, Option, none, some, List, [], ◌∷◌, if◌then◌else◌,
  leb, ◌==◌,
}
use async_task_worker.Base.Dict.{Dict}
use async_task_worker.Base.Int.{ℤ}
use async_task_worker.Status.{TaskStatus, TaskInfo, is_terminal_state}
use async_task_worker.Exceptions.{
  ErrorCategory, task_definition, task_execution, timeout, cancellation, resource, validation,
  internal, unknown, TaskError, str, task_cancellation_error,
}
use async_task_worker.Worker
use async_task_worker.Worker.{Worker, get_task_info}

-- `str.lower` on the letters of ASCII; no other character becomes one of the letters searched for.
unfoldable pub lower : Char → ℕ
lower c = if leb 65 (code c) && leb (code c) 90 then code c + 32 else code c

unfoldable pub starts_with : List ℕ → String → Bool
unfolding lower
starts_with [] s = true
starts_with (p ∷ ps) String.[] = false
starts_with (p ∷ ps) (String.◌∷◌ c s) = (p == lower c) && starts_with ps s

-- `words in s.lower()`
unfoldable pub found_in : List ℕ → String → Bool
unfolding starts_with
found_in ps String.[] = starts_with ps String.[]
found_in ps (String.◌∷◌ c s) = starts_with ps (String.◌∷◌ c s) || found_in ps s

-- "not found"
abbrev pub not_found : List ℕ
not_found = 110 ∷ 111 ∷ 116 ∷ 32 ∷ 102 ∷ 111 ∷ 117 ∷ 110 ∷ 100 ∷ []

-- The exceptions that `map_error_to_status_code` tells apart.
pub data ApiError : Type 0 where
  task_error : TaskError → ApiError
  value_error type_error key_error not_implemented_error other_error : ApiError

unfoldable pub status_of_category : ErrorCategory → String → ℕ
unfolding found_in
status_of_category validation shown = 400
status_of_category task_definition shown = 400
status_of_category resource shown = if found_in not_found shown then 404 else 503
status_of_category timeout shown = 408
status_of_category cancellation shown = 409
status_of_category task_execution shown = 500
status_of_category internal shown = 500
status_of_category unknown shown = 500

-- The status code; the detail repeats the error.
unfoldable pub map_error_to_status_code : ApiError → ℕ
unfolding status_of_category str
map_error_to_status_code (task_error e) = status_of_category e.category (str e)
map_error_to_status_code value_error = 400
map_error_to_status_code type_error = 400
map_error_to_status_code key_error = 404
map_error_to_status_code not_implemented_error = 501
map_error_to_status_code other_error = 500

-- A response with its body, or the HTTPException with its status code.
pub data Response (B : Type 0) : Type 0 where
  success : B → Response B
  http_error : ℕ → Response B

pub record TaskResponse (V : Type 0) : Type 0 where
  pub id : String
  pub status : TaskStatus
  pub progress : ℤ
  pub metadata : Dict V
  pub result : Option V
  pub error : Option String
  pub from_cache : Bool

unfoldable pub response_of : {V : Type 0} → TaskInfo V → TaskResponse V
response_of info = record {
  id = info.id;
  status = info.status;
  progress = info.progress;
  metadata = info.metadata;
  result = info.result;
  error = info.error;
  from_cache = info.from_cache;
}

-- The error of the routes for a task that is not known.
unfoldable pub missing_task : String → TaskError
missing_task t = record {
  message = "Task " ++ t ++ " not found";
  category = resource;
  original_error = none;
  task_id = some t;
  is_retryable = false;
}

module _ {V F A : Type 0} where
  unfoldable pub get_task : String → Worker V F A → Response (TaskResponse V)
  unfolding response_of map_error_to_status_code missing_task
  get_task t w = elim (get_task_info t w) [
    | none ↦ http_error (map_error_to_status_code (task_error (missing_task t)))
    | some info ↦ success (response_of info)
  ]

  unfoldable pub cancel_task : ℕ → ℕ → String → Worker V F A → Worker V F A × Response (Unit {0})
  unfolding map_error_to_status_code missing_task
  cancel_task now later t w = elim (get_task_info t w) [
    | none ↦ (w, http_error (map_error_to_status_code (task_error (missing_task t))))
    | some info ↦
        if is_terminal_state info
        then (w, success tt)
        else let (w', cancelled) = Worker.cancel_task now later t w in
          if cancelled then (w', success tt) else (
            w',
            http_error (
                map_error_to_status_code (
                  task_error (
                    task_cancellation_error ("Task " ++ t ++ " could not be cancelled") (some t)))),
          )
  ]

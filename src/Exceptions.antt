-- ===== src/Exceptions.antt =====
-- src/async_task_worker/exceptions.py: the errors of the task worker and `ErrorHandler`.
-- The text of a Python exception that is not a TaskError is a parameter: `Raised` says of what kind
-- it is, where the source tests for the kind, and what `str` and the type's name give.
mod Handling
mod Tests
use Prim.Native.String.{◌++◌}
use async_task_worker.Base.{
  ℕ, String, Bool, true, false, not, ◌&&◌, Option, none, some, str_dec, ite, if◌then◌else◌,
}

pub data ErrorCategory : Type 0 where
  task_definition task_execution timeout cancellation resource validation internal unknown :
      ErrorCategory

-- The name of a member of `ErrorCategory`.
unfoldable pub category_name : ErrorCategory → String
category_name task_definition = "TASK_DEFINITION"
category_name task_execution = "TASK_EXECUTION"
category_name timeout = "TIMEOUT"
category_name cancellation = "CANCELLATION"
category_name resource = "RESOURCE"
category_name validation = "VALIDATION"
category_name internal = "INTERNAL"
category_name unknown = "UNKNOWN"

pub data Kind : Type 0 where
  timeout_error cancelled_error type_error value_error attribute_error other_error : Kind

-- A Python exception that is not a TaskError.
pub record Raised : Type 0 where
  pub kind : Kind
  pub shown : String
  pub type_name : String

pub record TaskError : Type 0 where
  pub message : String
  pub category : ErrorCategory
  pub original_error : Option Raised
  pub task_id : Option String
  pub is_retryable : Bool

-- `if self.task_id`: an empty id counts as missing.
abbrev pub has_task_id : Option String → Bool
has_task_id none = false
has_task_id (some t) = ite (str_dec t "") false true

-- `__str__`. A member of the enumeration is formatted as its qualified name.
unfoldable pub str : TaskError → String
unfolding category_name
str e =
    let base_msg = "[ErrorCategory." ++ category_name e.category ++ "] " ++ e.message in
    elim e.task_id [
      | none ↦ base_msg
      | some t ↦ ite (str_dec t "") base_msg ("Task " ++ t ++ ": " ++ base_msg)
    ]

unfoldable pub task_definition_error : String → Option Raised → Option String → TaskError
task_definition_error message original_error task_id = record {
  message = message;
  category = task_definition;
  original_error = original_error;
  task_id = task_id;
  is_retryable = false;
}

unfoldable pub task_execution_error : String → Option Raised → Option String → TaskError
task_execution_error message original_error task_id = record {
  message = message;
  category = task_execution;
  original_error = original_error;
  task_id = task_id;
  is_retryable = true;
}

-- `seconds` is the text of the timeout.
unfoldable pub task_timeout_error : String → Option String → TaskError
task_timeout_error seconds task_id = record {
  message = "Task timed out after " ++ seconds ++ " seconds";
  category = timeout;
  original_error = none;
  task_id = task_id;
  is_retryable = true;
}

unfoldable pub task_cancellation_error : String → Option String → TaskError
task_cancellation_error message task_id = record {
  message = message;
  category = cancellation;
  original_error = none;
  task_id = task_id;
  is_retryable = false;
}

-- `to_dict`, as the record of its entries: `original` is the text and the type of the original.
pub record ErrorView : Type 0 where
  pub message : String
  pub category : ErrorCategory
  pub is_retryable : Bool
  pub task_id : Option String
  pub original : Option (String × String)

unfoldable pub to_dict : TaskError → ErrorView
to_dict e = record {
  message = e.message;
  category = e.category;
  is_retryable = e.is_retryable;
  task_id = if has_task_id e.task_id then e.task_id else none;
  original = elim e.original_error [ none ↦ none | some r ↦ some (r.shown, r.type_name) ];
}

-- What `handle_error` is given.
pub data Error : Type 0 where
  known : TaskError → Error
  raised : Raised → Error

-- The mapping of the standard exceptions.
unfoldable pub standardize : Raised → Option String → String → TaskError
unfolding task_timeout_error task_cancellation_error task_definition_error task_execution_error
standardize r task_id timeout_text = elim r.kind [
  | timeout_error ↦ task_timeout_error timeout_text task_id
  | cancelled_error ↦ task_cancellation_error "Task was cancelled" task_id
  | type_error ↦ task_definition_error r.shown (some r) task_id
  | value_error ↦ task_definition_error r.shown (some r) task_id
  | attribute_error ↦ task_definition_error r.shown (some r) task_id
  | other_error ↦ task_execution_error r.shown (some r) task_id
]

-- `timeout_text` is the text of `context.get("timeout", 0)`. The logging is left out.
unfoldable pub handle_error : Error → Option String → String → TaskError
unfolding standardize
handle_error (known e) task_id timeout_text =
    if has_task_id task_id && not (has_task_id e.task_id) then record e { task_id = task_id } else e
handle_error (raised r) task_id timeout_text = standardize r task_id timeout_text

pub data LogLevel : Type 0 where
  info warning error : LogLevel

-- The level that `_log_error` chooses.
unfoldable pub log_level : ErrorCategory → LogLevel
log_level cancellation = info
log_level timeout = info
log_level validation = warning
log_level task_definition = error
log_level task_execution = error
log_level resource = error
log_level internal = error
log_level unknown = error

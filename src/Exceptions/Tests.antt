-- ===== src/Exceptions/Tests.antt =====
-- The errors of src/async_task_worker/exceptions.py on small inputs, and the theorems at these.
use async_task_worker.Base.{◌≡◌, refl, none, some, str_dec}
use async_task_worker.Exceptions.{
  TaskError, Raised, value_error, known, str, handle_error, task_cancellation_error,
}

abbrev bad_value : Raised
bad_value = record { kind = value_error; shown = "bad"; type_name = "ValueError" }

abbrev nameless : TaskError
nameless = task_cancellation_error "Task was cancelled" none

text_of_handled :
    str (handle_error (known nameless) (some "a") "0")
    ≡ "Task a: [ErrorCategory.CANCELLATION] Task was cancelled"
unfolding str handle_error task_cancellation_error str_dec
text_of_handled = refl

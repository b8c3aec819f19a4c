-- ===== src/Exceptions/Handling.antt =====
-- src/async_task_worker/exceptions.py: what `ErrorHandler.handle_error` answers.
use async_task_worker.Base.{
  String, ◌≡◌, true, Option, some, arith, Bool-cases, inl, inr, if◌then◌else◌,
}
use async_task_worker.Exceptions.{
  TaskError, has_task_id, Error, known, raised, standardize, handle_error,
}

-- `handle_error`, given a task id that is not empty, answers an error that has a task id: the one
-- that the error brought, or else the given one. Handling the answer again, with any task id,
-- changes nothing. An error that is a TaskError keeps its message, category and retry flag.
pub handled_has_task :
    (e : Error) (t : String) (seconds : String) (u : Option String) (seconds' : String)
    → has_task_id (some t) ≡ true
    → let h = handle_error e (some t) seconds in
      (has_task_id h.task_id ≡ true)
      × (handle_error (known h) u seconds' ≡ h)
      × ((k : TaskError)
          → e ≡ known k
          → (h.message ≡ k.message)
            × (h.category ≡ k.category)
            × (h.is_retryable ≡ k.is_retryable)
            × (h.task_id ≡ (if has_task_id k.task_id then k.task_id else some t)))
unfolding handle_error standardize
handled_has_task (known k) t seconds u seconds' h = elim (Bool-cases (has_task_id k.task_id)) [
  | inl e ↦ rw (h, e) (e, ground (arith, e), λ j q. ground (arith, e, q))
  | inr e ↦ rw (h, e) (h, ground (arith, h), λ j q. ground (arith, e, q))
]
handled_has_task (raised r) t seconds u seconds' h =
    (ground (arith, h), ground (arith, h), λ k q. cc)

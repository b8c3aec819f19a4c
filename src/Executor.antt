-- ===== src/Executor.antt =====
-- src/async_task_worker/executor.py: `TaskExecutor.execute_task`.
-- The cache manager, the body of the task and the completion callback are parameters: the cache
-- manager keeps a state `C`, and the body and the callback act on a state `S`. An exception of the
-- callback is logged and dropped, so the callback is a function on `S`; so is an exception of the
-- cache's `set`. No other task runs between the steps.
pub mod Outcomes
mod Tests
use Prim.Native.String.{◌++◌}
use async_task_worker.Base.{
  ℕ, String, Bool, true, false, not, ◌&&◌, Option, none, some, if◌then◌else◌,
}
use async_task_worker.Exceptions.{
  TaskError, Raised, str, task_execution_error, task_timeout_error, task_cancellation_error,
}

-- What `cache_manager.get` comes to.
pub data Looked (V : Type 0) : Type 0 where
  hit : V → Looked V
  miss : Looked V
  lookup_raised : Looked V

-- The protocol `CacheManager`; `K` holds the name, the arguments and the key options of a call.
pub record CacheManager (C K V : Type 0) : Type 0 where
  pub enabled : C → Bool
  pub get : K → C → C × Looked V
  pub set : K → V → Option ℕ → C → C

-- What the await of the task's coroutine comes to.
pub data Ran (V : Type 0) : Type 0 where
  returned : V → Ran V
  timed_out : Ran V
  was_cancelled : Ran V
  threw : Raised → Ran V

-- What `execute_task` returns or raises: the TypeError for a function that is no coroutine, the
-- exception of `task_func(*args, **kwargs)`, which stands outside of the `try`, or a TaskError.
pub data Outcome (V : Type 0) : Type 0 where
  done : V → Outcome V
  not_coroutine : String → Outcome V
  call_raised : String → Outcome V
  fails : TaskError → Outcome V

-- The call: `key` for the cache, its options, the text of its timeout, and, where the function does
-- not take the arguments, the text of the exception that calling it raises, before its body starts.
pub record Call (K : Type 0) : Type 0 where
  pub key : K
  pub function_name : String
  pub is_coroutine : Bool
  pub use_cache : Bool
  pub cache_ttl : Option ℕ
  pub timeout_text : String
  pub bind_error : Option String

module _ {C K V : Type 0} (manager : Option (CacheManager C K V)) where
  -- `self.cache_manager and self.cache_manager.enabled`
  abbrev pub caching : C → Bool
  caching c = elim manager [ none ↦ false | some m ↦ m.enabled c ]

  abbrev pub look_up : K → C → C × Looked V
  look_up k c = elim manager [ none ↦ (c, miss) | some m ↦ m.get k c ]

  abbrev pub keep : K → V → Option ℕ → C → C
  keep k v ttl c = elim manager [ none ↦ c | some m ↦ m.set k v ttl c ]

  module _ {S : Type 0} (on_complete : String → V → Bool → S → S) (body : S → S × Ran V) where
    -- From the start of the coroutine on.
    unfoldable pub await_body : String → Call K → Bool → C → S → (C × S) × Outcome V
    unfolding task_execution_error task_timeout_error task_cancellation_error
    await_body t call use_cache c s =
        let (s1, ran) = body s in
        elim ran [
          | returned v ↦ (
            (
              if use_cache && caching c then keep call.key v call.cache_ttl c else c,
              on_complete t v false s1,
            ),
            done v,
          )
          | timed_out ↦ ((c, s1), fails (task_timeout_error call.timeout_text (some t)))
          | was_cancelled ↦ ((c, s1), fails (task_cancellation_error "Task cancelled" (some t)))
          | threw r ↦ (
            (c, s1),
            fails (task_execution_error ("Task execution failed: " ++ r.shown) (some r) (some t)),
          )
        ]

    -- From the call of the function on.
    unfoldable pub run_body : String → Call K → Bool → C → S → (C × S) × Outcome V
    unfolding await_body
    run_body t call use_cache c s = elim call.bind_error [
      | some message ↦ ((c, s), call_raised message)
      | none ↦ await_body t call use_cache c s
    ]

    unfoldable pub execute_task : String → Call K → C → S → (C × S) × Outcome V
    unfolding run_body
    execute_task t call c s =
        if not call.is_coroutine
        then (
          (c, s),
          not_coroutine (
              "Task " ++ t ++ ": Function " ++ call.function_name
              ++ " is not a coroutine function"),
        )
        else elim (call.use_cache && caching c) [
          | false ↦ run_body t call call.use_cache c s
          | true ↦
              let (c1, looked) = look_up call.key c in
              elim looked [
                | hit v ↦ ((c1, on_complete t v true s), done v)
                | miss ↦ run_body t call true c1 s
                | lookup_raised ↦ run_body t call false c1 s
              ]
        ]

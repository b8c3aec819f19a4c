-- ===== src/TaskCache/Executed.antt =====
-- src/async_task_worker/executor.py over src/async_task_worker/adapters/cache_adapter.py: a task that
-- is answered from the cache.
use async_task_worker.Base.{ℕ, ◌≤◌, String, ◌≡◌, Bool, true, false, Option, some, arith, ap, ◌∙◌}
use async_task_worker.Memory.{CacheAdapter, expired, expiry_at}
use async_task_worker.KeyUtils.{Value}
use async_task_worker.Cache
use async_task_worker.Cache.{Library, Entry, AsyncCache, Result, ok, or_default}
use async_task_worker.Cache.Lawful.{IsLawful}
use async_task_worker.Executor.{Ran, done, Call, execute_task}
use async_task_worker.Executor.Outcomes.{execute_task-hit}
use async_task_worker.TaskCache.{normal_cache_key_fn, get, set}
use async_task_worker.TaskCache.Manager.{task_manager, looked}
use async_task_worker.TaskCache.Reads.{result_crosses_functions}

module _ {X V S : Type 0} (show : Value X → String) (lib : Library X V)
    (adapter : CacheAdapter V S) where
  set-enabled :
      (now later n : ℕ) (entry : Entry X) (v : V) (ttl : Option ℕ) (c : AsyncCache S)
      → (set show lib adapter now later n entry v ttl (some (normal_cache_key_fn show)) c).0.enabled
        ≡ c.enabled
  unfolding set Cache.set Cache.validated_key Cache.validate_key
  set-enabled now later n entry v ttl c = ground arith

module _ {X V S W : Type 0} (show : Value X → String) (lib : Library X V)
    (adapter : CacheAdapter V S) (lawful : IsLawful adapter) where
  open lawful use {Valid}

  -- Once the result of a task was stored in the cache of the worker, a task with another function
  -- and the same arguments that allows the cache answers that result and reports it as cached, and
  -- its body is not run, until the result expires.
  pub other_function_not_run :
      (now later at at' n n' size : ℕ) (entry : Entry X) (t : String) (call : Call (Entry X))
      (result : V) (ttl : Option ℕ) (c : AsyncCache S) (on_complete : String → V → Bool → W → W)
      (body : W → W × Ran V) (w : W)
      → c.enabled ≡ true
      → Valid c.adapter
      → lib.encoded_size c.fallback_to_str result ≡ some size
      → size ≤ c.max_serialized_size
      → expired (expiry_at now (or_default lib adapter ttl c.default_ttl)) at ≡ false
      → call.is_coroutine ≡ true
      → call.use_cache ≡ true
      → call.key ≡ record entry { fn_name = call.key.fn_name; entry_id = call.key.entry_id }
      → let c' =
          (set show lib adapter now later n entry result ttl
            (some (normal_cache_key_fn show))
            c).0 in
        let answer =
          execute_task
            (some (task_manager show lib adapter at at' n'))
            on_complete
            body
            t
            call
            c'
            w in
        (answer.1 ≡ done result) × (answer.0.1 ≡ on_complete t result true w)
  unfolding task_manager
  other_function_not_run now later at at' n n' size entry t call result ttl c on_complete body w on
        v enc fits alive hc hu same =
      let c' : AsyncCache S =
        (set show lib adapter now later n entry result ttl (some (normal_cache_key_fn show)) c).0 in
      let found : (get show lib adapter at n' call.key (some (normal_cache_key_fn show)) c').1
          ≡ ok (some result) =
        rw same (
          result_crosses_functions show lib adapter lawful now later at n n' size entry
            call.key.fn_name call.key.entry_id result ttl c on v enc fits alive) in
      let hits =
        execute_task-hit (task_manager show lib adapter at at' n') on_complete body t call c' w
          result hc hu (set-enabled show lib adapter now later n entry result ttl c ∙ on)
          (ap looked found) in
      (ap (λ r. r.1) hits, ap (λ r. r.0.1) hits)

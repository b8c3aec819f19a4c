-- ===== src/TaskCache/Manager.antt =====
-- src/async_task_worker/adapters/cache_adapter.py: `AsyncCacheAdapter` as the cache manager that
-- src/async_task_worker/executor.py asks, for calls with the key function of `add_task`.
use async_task_worker.Base.{ℕ, String, Option, none, some}
use async_task_worker.Memory.{CacheAdapter}
use async_task_worker.KeyUtils.{Value}
use async_task_worker.Cache.{Library, Entry, AsyncCache, Result, ok, invalid_key_error}
use async_task_worker.Executor.{Looked, hit, miss, lookup_raised, CacheManager}
use async_task_worker.TaskCache.{normal_cache_key_fn, get, set}

abbrev pub looked : {V : Type 0} → Result (Option V) → Looked V
looked (ok none) = miss
looked (ok (some v)) = hit v
looked invalid_key_error = lookup_raised

-- `now` and `later` are the readings of the clock for the calls of one execution, and `n` numbers
-- the UUID that a default key may draw.
unfoldable pub task_manager :
    {X V S : Type 0}
    → (Value X → String)
    → Library X V
    → CacheAdapter V S
    → ℕ
    → ℕ
    → ℕ
    → CacheManager (AsyncCache S) (Entry X) V
unfolding get set
task_manager show lib adapter now later n = record {
  enabled = λ c. c.enabled;
  get = λ entry c.
      let (c', r) = get show lib adapter now n entry (some (normal_cache_key_fn show)) c in
      (c', looked r);
  set = λ entry v ttl c.
      (set show lib adapter now later n entry v ttl (some (normal_cache_key_fn show)) c).0;
}

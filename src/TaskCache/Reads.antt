-- ===== src/TaskCache/Reads.antt =====
-- Results that go through src/async_task_worker/adapters/cache_adapter.py.
use Prim.Native.String.{◌++◌}
use package.text.Mathlib.TextLemmas.{append-eq-nil_iff, cons≢nil}
use async_task_worker.Base.{ℕ, ◌≤◌, String, ◌≡◌, ◌≢◌, true, false, Option, some, ◌∙◌}
use async_task_worker.Memory.{CacheAdapter, expired, expiry_at}
use async_task_worker.KeyUtils.{Value, dict}
use async_task_worker.Cache.{Library, Entry, AsyncCache, ok, or_default}
use async_task_worker.Cache.Lawful.{IsLawful}
use async_task_worker.Cache.RoundTrip.{set_get}
use async_task_worker.TaskCache.{normal_cache_key_fn, get, set}
use async_task_worker.TaskCache.Keys.{normal_key_ignores_function}

pub none_key : (s : String) → ◌≢◌ {A = String} ("none" ++ s) ""
none_key s e = cons≢nil (append-eq-nil_iff.0 e).0

module _ {X V S : Type 0} (show : Value X → String) (lib : Library X V) (adapter : CacheAdapter V S)
    (lawful : IsLawful adapter) where
  open lawful use {Valid}

  -- The result of one task answers the lookup for another task with the same arguments and another
  -- function, until it expires.
  pub result_crosses_functions :
      (now later at n n' size : ℕ) (entry : Entry X) (other_fn : String) (other_id : Option String)
      (result : V) (ttl : Option ℕ) (c : AsyncCache S)
      → c.enabled ≡ true
      → Valid c.adapter
      → lib.encoded_size c.fallback_to_str result ≡ some size
      → size ≤ c.max_serialized_size
      → expired (expiry_at now (or_default lib adapter ttl c.default_ttl)) at ≡ false
      → (get show lib adapter at n'
          (record entry { fn_name = other_fn; entry_id = other_id })
          (some (normal_cache_key_fn show))
          (set show lib adapter now later n entry result ttl
            (some (normal_cache_key_fn show))
            c).0).1
        ≡ ok (some result)
  unfolding get set
  result_crosses_functions now later at n n' size entry other_fn other_id result ttl c on v enc fits
        alive =
      let (k, same) = normal_key_ignores_function show entry other_fn other_id in
      (set_get lib adapter lawful now later at n n' size entry
        (record entry { fn_name = other_fn; entry_id = other_id }) result ttl
        (some (normal_cache_key_fn show)) (some (normal_cache_key_fn show)) c
        ("none" ++ ":" ++ show entry.args ++ ":" ++ show (dict entry.kwargs)) on v enc fits k
        (same ∙ k) (none_key _)).1
      ∙ rw alive

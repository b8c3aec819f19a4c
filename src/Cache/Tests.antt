-- ===== src/Cache/Tests.antt =====
-- The cache of src/async_cache/core.py over the memory adapter, on small inputs.
use async_task_worker.Base.{
  ℕ, ◌≡◌, refl, true, false, none, some, [], ◌∷◌, arith, str_dec, if◌then◌else◌,
}
use async_task_worker.Base.Dict
use async_task_worker.Memory
use async_task_worker.Memory.{MemoryCache, memory_adapter, expired, expiry_at}
use async_task_worker.Memory.Valid.{init-IsValid, IsValid}
use async_task_worker.KeyUtils.{other, end, made, KeyFn}
use async_task_worker.Cache.{
  Library, Entry, AsyncCache, ok, init, get, set, invalidate_by_id, or_default,
  cleanup_stale_mappings,
}
use async_task_worker.Cache.Lawful.{memory_peek, memory_lawful}
use async_task_worker.Cache.RoundTrip.{set_get}
use async_task_worker.Cache.Cleanup.{stale, cleanup_drops_stale}

abbrev sample_library : Library ℕ ℕ
sample_library = record {
  encoded_size = λ fallback v. some v;
  digest = λ f a k. some "digest";
  unique = λ n. "0";
}

abbrev by_name : KeyFn ℕ
by_name context = made "user:1"

abbrev entry : Entry ℕ
entry = record {
  fn_name = "load";
  args = other 1;
  kwargs = end;
  entry_id = some "load:1";
  metadata = none;
}

abbrev nothing_cached : AsyncCache (MemoryCache ℕ)
nothing_cached = init (Memory.init (some 5)) (some 60) true 100 false 900

program : Unit {0}
unfolding init get set invalidate_by_id cleanup_stale_mappings Memory.init Memory.get Memory.set
    Memory.delete Dict.lookup Dict.insert Dict.delete str_dec memory_peek Memory.store
    Memory.at_capacity
program = tt

abbrev one_cached : AsyncCache (MemoryCache ℕ)
one_cached = record nothing_cached {
  adapter = record {
    cache = ("user:1", (7, some 60_010)) ∷ [];
    access_times = ("user:1", 11) ∷ [];
    max_size = some 5;
  };
  entry_key_map = ("load:1", "user:1") ∷ [];
}

set_one :
    set sample_library memory_adapter 10 11 0 entry 7 none (some by_name) nothing_cached
    ≡ (one_cached, ok true)
unfolding program
set_one = refl

-- Too large a result is not stored.
set_large :
    set sample_library memory_adapter 10 11 0 entry 101 none (some by_name) nothing_cached
    ≡ (nothing_cached, ok false)
unfolding program
set_large = refl

one-IsValid : IsValid one_cached.adapter
unfolding Dict.lookup str_dec init Memory.init
one-IsValid = record { times = (refl, tt); same = λ k. ground arith; bound = λ n e. ground arith }

set_get_example :
    ((set sample_library memory_adapter 10 11 0 entry 7 none (some by_name) nothing_cached).1
      ≡ ok true)
    × ((get sample_library memory_adapter 20 0
          (record entry { entry_id = none })
          (some by_name)
          (set sample_library memory_adapter 10 11 0 entry 7 none
            (some by_name)
            nothing_cached).0).1
        ≡ ok (
            if expired
              (expiry_at 10 (
                or_default sample_library (memory_adapter {V = ℕ}) none nothing_cached.default_ttl))
              20
            then none
            else some 7))
unfolding program
set_get_example =
    set_get sample_library memory_adapter memory_lawful 10 11 20 0 0 7 entry
      (record entry { entry_id = none }) 7 none (some by_name) (some by_name) nothing_cached
      "user:1" refl (init-IsValid (some 5)) refl (omega arith) refl refl (λ e. cc)

cleanup_drops_stale_example :
    (Dict.lookup "load:1"
        (cleanup_stale_mappings sample_library memory_adapter 70_000 one_cached).entry_key_map
      ≡ (if stale sample_library memory_adapter memory_lawful 70_000 one_cached.adapter
            (Dict.lookup "load:1" one_cached.entry_key_map)
          then none
          else Dict.lookup "load:1" one_cached.entry_key_map))
    × (memory_peek 70_000 "user:1"
          (cleanup_stale_mappings sample_library memory_adapter 70_000 one_cached).adapter
        ≡ memory_peek 70_000 "user:1" one_cached.adapter)
cleanup_drops_stale_example =
    cleanup_drops_stale sample_library memory_adapter memory_lawful 70_000 one_cached "load:1"
      "user:1"

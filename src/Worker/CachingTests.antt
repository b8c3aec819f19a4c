-- ===== src/Worker/CachingTests.antt =====
-- `invalidate_cache` of src/async_task_worker/core.py on a small cache in memory.
use async_task_worker.Base.{
  ℕ, String, ◌≡◌, refl, true, false, none, some, [], ◌∷◌, arith, ite, str_dec,
}
use async_task_worker.Base.Dict
use async_task_worker.Memory.{MemoryCache, memory_adapter}
use async_task_worker.Memory.Valid.{IsValid}
use async_task_worker.KeyUtils.{Value, text, other, dict, end}
use async_task_worker.Cache
use async_task_worker.Cache.{Library, AsyncCache, ok}
use async_task_worker.Cache.Lawful.{memory_lawful, memory_peek}
use async_task_worker.TaskCache
use async_task_worker.TaskCache.{normal_cache_key_fn}
use async_task_worker.Worker.Caching.{Request, entry_of, invalidate_cache}
use async_task_worker.Worker.Invalidated.{invalidate_cache-removes, cached_key}

abbrev sample_show : Value ℕ → String
sample_show (text s) = s
sample_show (other n) = "(1,)"
sample_show (dict d) = "{}"

abbrev sample_library : Library ℕ ℕ
sample_library = record {
  encoded_size = λ fallback v. some v;
  digest = λ f a k. some "digest";
  unique = λ n. "0";
}

abbrev squares : Request ℕ
squares = record { func_name = "square"; args = other 1; kwargs = end; task_id = none }

-- The results under the keys of the squares and of another call.
abbrev two_entries : MemoryCache ℕ
two_entries = record {
  cache = ("none:(1,):{}", (7, none)) ∷ ("other", (8, none)) ∷ [];
  access_times = ("none:(1,):{}", 1) ∷ ("other", 2) ∷ [];
  max_size = none;
}

abbrev cached : AsyncCache (MemoryCache ℕ)
cached = Cache.init two_entries none true 100 false 900

two_entries-IsValid : IsValid two_entries
unfolding Dict.lookup str_dec
two_entries-IsValid = record {
  times = (refl, (refl, tt));
  same = λ k. ground arith;
  bound = λ n e. cc;
}

program : Unit {0}
unfolding Cache.init Dict.lookup str_dec memory_peek
program = tt

invalidate_cache-removes_example :
    let c' = (invalidate_cache sample_show sample_library memory_adapter 0 squares cached).0 in
    ((invalidate_cache sample_show sample_library memory_adapter 0 squares cached).1 ≡ ok true)
    × ((TaskCache.get sample_show sample_library memory_adapter 10 1
          (record (entry_of sample_show sample_library memory_adapter squares) {
            fn_name = "cube";
            entry_id = some "cube:1";
          })
          (some (normal_cache_key_fn sample_show))
          c').1
        ≡ ok none)
    × (memory_peek 10 "other" c'.adapter
        ≡ ite
            (str_dec "other" (cached_key sample_show squares))
            none
            (memory_peek 10 "other" cached.adapter))
unfolding program
invalidate_cache-removes_example =
    invalidate_cache-removes sample_show sample_library memory_adapter memory_lawful 0 1 10 squares
      "cube" (some "cube:1") cached "other" refl two_entries-IsValid refl (λ e. cc)

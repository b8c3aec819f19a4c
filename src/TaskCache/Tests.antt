-- ===== src/TaskCache/Tests.antt =====
-- The keys of src/async_task_worker/adapters/cache_adapter.py and the results behind them, on small
-- inputs.
use async_task_worker.Base.{Bool, ℕ, String, ◌≡◌, refl, true, false, none, some, arith}
use async_task_worker.Memory
use async_task_worker.Memory.{MemoryCache, memory_adapter}
use async_task_worker.Memory.Valid.{init-IsValid}
use async_task_worker.KeyUtils.{Value, text, other, dict, end}
use async_task_worker.Cache
use async_task_worker.Cache.{Library, Entry, AsyncCache, Result, ok, build_context}
use async_task_worker.Cache.Lawful.{memory_lawful}
use async_task_worker.TaskCache.{normal_cache_key_fn, set}
use async_task_worker.TaskCache.Keys.{entry_of}
use async_task_worker.Executor.{Ran, returned, done, Call, execute_task}
use async_task_worker.TaskCache.Manager.{task_manager}
use async_task_worker.TaskCache.Executed.{other_function_not_run}

abbrev sample_show : Value ℕ → String
sample_show (text s) = s
sample_show (other n) = "(1,)"
sample_show (dict d) = "{}"

abbrev sample_library : Library ℕ ℕ
sample_library = record {
  encoded_size = λ fallback v. some v;
  digest = λ f a k. some "digest";
  unique = λ n. "0";
}

abbrev squares : Entry ℕ
squares = entry_of sample_show "square" (other 1) end (some "square:1") none

abbrev nothing_cached : AsyncCache (MemoryCache ℕ)
nothing_cached = Cache.init (Memory.init none) none true 100 false 900

program : Unit {0}
unfolding Cache.init Memory.init
program = tt

-- A call of another function with the arguments of the squares.
abbrev cubes : Call (Entry ℕ)
cubes = record {
  key = record squares { fn_name = "cube"; entry_id = some "cube:2" };
  function_name = "cube";
  is_coroutine = true;
  use_cache = true;
  cache_ttl = none;
  timeout_text = "None";
  bind_error = none;
}

-- The state is the last value that was reported.
abbrev reported : String → ℕ → Bool → ℕ → ℕ
reported t v from_cache w = v

abbrev eight : ℕ → ℕ × Ran ℕ
eight w = (w, returned 8)

other_function_not_run_example :
    let c' =
      (set sample_show sample_library memory_adapter 10 11 0 squares 7 none
        (some (normal_cache_key_fn sample_show))
        nothing_cached).0 in
    let answer =
      execute_task
        (some (task_manager sample_show sample_library memory_adapter 20 21 0))
        reported
        eight
        "b"
        cubes
        c'
        0 in
    (answer.1 ≡ done 7) × (answer.0.1 ≡ reported "b" 7 true 0)
unfolding program
other_function_not_run_example =
    other_function_not_run sample_show sample_library memory_adapter memory_lawful 10 11 20 21 0 0 7
      squares "b" cubes 7 none nothing_cached reported eight 0 refl (init-IsValid none) refl
      (omega arith) refl refl refl refl

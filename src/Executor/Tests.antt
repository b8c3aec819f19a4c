-- ===== src/Executor/Tests.antt =====
-- `execute_task` of src/async_task_worker/executor.py on small inputs, with a cache of one entry, and
-- the theorems at these.
use async_task_worker.Base.{ℕ, String, ◌≡◌, refl, Bool, true, Option, none, some, List, [], ◌∷◌}
use async_task_worker.Exceptions.{Raised, value_error}
use async_task_worker.Executor.{
  hit, miss, CacheManager, Ran, returned, threw, done, Call, execute_task,
}
use async_task_worker.Executor.Outcomes.{Reports, outcome_reported}

-- A cache that keeps the last value, for every key.
abbrev last_value : CacheManager (Option ℕ) String ℕ
last_value = record {
  enabled = λ c. true;
  get = λ k c. (c, elim c [ none ↦ miss | some v ↦ hit v ]);
  set = λ k v ttl c. some v;
}

-- The state lists the values that were reported, the last first.
abbrev report : String → ℕ → Bool → List ℕ → List ℕ
report t v from_cache s = v ∷ s

abbrev seven : List ℕ → List ℕ × Ran ℕ
seven s = (0 ∷ s, returned 7)

abbrev bad_value : Raised
bad_value = record { kind = value_error; shown = "bad"; type_name = "ValueError" }

abbrev raises : List ℕ → List ℕ × Ran ℕ
raises s = (0 ∷ s, threw bad_value)

abbrev call : Call String
call = record {
  key = "f";
  function_name = "f";
  is_coroutine = true;
  use_cache = true;
  cache_ttl = none;
  timeout_text = "None";
  bind_error = none;
}

run_and_hit :
    execute_task (some last_value) report seven "b" call (some 7) (7 ∷ 0 ∷ [])
    ≡ ((some 7, 7 ∷ 7 ∷ 0 ∷ []), done 7)
unfolding execute_task
run_and_hit = refl

outcome_reported_example :
    Reports
      (some last_value)
      report
      seven
      "a"
      call
      none
      []
      (execute_task (some last_value) report seven "a" call none [])
outcome_reported_example = outcome_reported (some last_value) report seven "a" call none []

-- ===== src/Memory/Tests.antt =====
-- The cache of src/async_cache/adapters/memory.py on small inputs, and the theorems at these.
use async_task_worker.Base.{
  ℕ, String, ◌≡◌, refl, true, false, none, some, List, [], ◌∷◌, arith, str_dec, ite, ◌⊎◌,
}
use async_task_worker.Base.Dict
use async_task_worker.Base.Dict.{contains}
use async_task_worker.Memory.{MemoryCache, init, get, set, store, at_capacity, expiry_at, delete}
use async_task_worker.Memory.Oldest.{IsOldest}
use async_task_worker.Memory.Valid.{IsValid}
use async_task_worker.Memory.Reads.{
  Call, get_key, set_key, run, no_key_errors, set_evicts, IsFull, HasRoom,
}

program : Unit {0}
unfolding init get set delete run str_dec Dict.lookup Dict.insert Dict.delete store at_capacity
program = tt

abbrev calls : List (Call ℕ)
calls = set_key 10 10 "a" 1 none ∷ set_key 20 20 "b" 2 (some 5) ∷ get_key 30 "a" ∷ []

abbrev two : MemoryCache ℕ
two = record {
  cache = ("a", (1, none)) ∷ ("b", (2, some 5020)) ∷ [];
  access_times = ("a", 30) ∷ ("b", 20) ∷ [];
  max_size = some 2;
}

run-calls : run calls (init (some 2)) ≡ some two
unfolding program
run-calls = refl

two-IsValid : IsValid two
unfolding Dict.lookup str_dec
two-IsValid = record {
  times = (refl, (refl, tt));
  same = λ k. ground arith;
  bound = λ n e. ground arith;
}

-- The entry that was used longest ago makes room.
set_third :
    set 40 40 "c" 3 none two
    ≡ some (record {
      cache = ("a", (1, none)) ∷ ("c", (3, none)) ∷ [];
      access_times = ("a", 30) ∷ ("c", 40) ∷ [];
      max_size = some 2;
    })
unfolding program
set_third = refl

no_key_errors_example : (m : MemoryCache ℕ) × (run calls (init (some 2)) ≡ some m) × IsValid m
no_key_errors_example = no_key_errors (some 2) calls

set_evicts_example :
    (m' : MemoryCache ℕ) × (set 40 40 "c" 3 none two ≡ some m')
    × ((contains "c" two.cache ≡ false)
          × IsFull two
          × ((victim : String) × IsOldest victim two.access_times
              × ((j : String)
                  → Dict.lookup j m'.cache
                    ≡ ite
                        (str_dec j "c")
                        (some (3, expiry_at 40 none))
                        (ite (str_dec j victim) none (Dict.lookup j two.cache))))
        ⊎ ((contains "c" two.cache ≡ true) ⊎ HasRoom two)
          × ((j : String)
              → Dict.lookup j m'.cache
                ≡ ite (str_dec j "c") (some (3, expiry_at 40 none)) (Dict.lookup j two.cache)))
set_evicts_example = set_evicts 40 40 "c" 3 none two two-IsValid (λ e. cc)

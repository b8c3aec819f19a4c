-- ===== src/Memory.antt =====
-- src/async_cache/adapters/memory.py: `MemoryCacheAdapter`, and the abstract `CacheAdapter` of
-- src/async_cache/core.py that it implements.
-- A time is a whole number of milliseconds, a TTL one of seconds. A critical section under `_lock`
-- is one step; each `time.time()` is an argument. `none` as a result stands for the KeyError of a
-- `del` of a missing key.
mod Oldest
pub mod Valid
pub mod Reads
mod Tests
use async_task_worker.Base.{
  ℕ, suc, ◌+◌, ◌*◌, ◌<◌, ◌≡◌, String, Bool, true, false, ◌&&◌, not, Option, none, some, List, [],
  ◌∷◌, length, if◌then◌else◌, ltb, leb,
}
use async_task_worker.Base.Dict
use async_task_worker.Base.Dict.{Dict, contains}

-- What `AsyncCache` calls: a backend with its state `S`.
pub record CacheAdapter (V S : Type 0) : Type 0 where
  pub get : ℕ → String → S → S × Option V
  pub set : ℕ → ℕ → String → V → Option ℕ → S → Option S
  pub delete : String → S → Option (S × Bool)
  pub clear : S → S

pub record MemoryCache (V : Type 0) : Type 0 where
  pub cache : Dict (V × Option ℕ)
  pub access_times : Dict ℕ
  pub max_size : Option ℕ

-- `min(self._access_times.items(), key=…)[0]`: the first of the keys with the least time.
unfoldable pub oldest_from : String → ℕ → Dict ℕ → String
oldest_from k t [] = k
oldest_from k t ((j, u) ∷ rest) =
    oldest_from (if ltb u t then j else k) (if ltb u t then u else t) rest

unfoldable pub oldest : Dict ℕ → Option String
unfolding oldest_from
oldest [] = none
oldest ((k, t) ∷ rest) = some (oldest_from k t rest)

-- `del d[k]`
unfoldable pub remove {ℓ} : {A : Type ℓ} → String → Dict A → Option (Dict A)
remove k d = if contains k d then some (Dict.delete k d) else none

abbrev pub expired : Option ℕ → ℕ → Bool
expired none now = false
expired (some expiry) now = ltb expiry now

abbrev pub expiry_at : ℕ → Option ℕ → Option ℕ
expiry_at now none = none
expiry_at now (some ttl) = some (now + ttl * 1000)

module _ {V : Type 0} where
  unfoldable pub init : Option ℕ → MemoryCache V
  init max_size = record { cache = []; access_times = []; max_size = max_size }

  unfoldable pub get : ℕ → String → MemoryCache V → MemoryCache V × Option V
  get now key m = elim (Dict.lookup key m.cache) [
    | none ↦ (m, none)
    | some (value, expiry) ↦
        let touched = Dict.insert key now m.access_times in
        if expired expiry now
        then (
          record m { cache = Dict.delete key m.cache; access_times = Dict.delete key touched },
          none,
        )
        else (record m { access_times = touched }, some value)
  ]

  unfoldable pub evict_one : MemoryCache V → Option (MemoryCache V)
  unfolding oldest remove
  evict_one m = elim (oldest m.access_times) [
    | none ↦ some m
    | some key ↦ elim (remove key m.cache) [
      | none ↦ none
      | some cache ↦ elim (remove key m.access_times) [
        | none ↦ none
        | some access_times ↦ some (record m { cache = cache; access_times = access_times })
      ]
    ]
  ]

  unfoldable pub at_capacity : String → MemoryCache V → Bool
  at_capacity key m = elim m.max_size [
    | none ↦ false
    | some n ↦ leb n (length m.cache) && not (contains key m.cache)
  ]

  unfoldable pub store : ℕ → String → V → Option ℕ → MemoryCache V → MemoryCache V
  store now key value expiry m = record m {
    cache = Dict.insert key (value, expiry) m.cache;
    access_times = Dict.insert key now m.access_times;
  }

  unfoldable pub set : ℕ → ℕ → String → V → Option ℕ → MemoryCache V → Option (MemoryCache V)
  unfolding evict_one at_capacity store
  set now later key value ttl m =
      let room = if at_capacity key m then evict_one m else some m in
      elim room [ none ↦ none | some m' ↦ some (store later key value (expiry_at now ttl) m') ]

  unfoldable pub delete : String → MemoryCache V → Option (MemoryCache V × Bool)
  unfolding remove
  delete key m =
      if contains key m.cache
      then elim (remove key m.access_times) [
        | none ↦ none
        | some access_times ↦
            some (record m { cache = Dict.delete key m.cache; access_times = access_times }, true)
      ]
      else some (m, false)

  unfoldable pub clear : MemoryCache V → MemoryCache V
  clear m = record m { cache = []; access_times = [] }

abbrev pub memory_adapter : {V : Type 0} → CacheAdapter V (MemoryCache V)
memory_adapter = record { get = get; set = set; delete = delete; clear = clear }

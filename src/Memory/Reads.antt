-- ===== src/Memory/Reads.antt =====
-- What src/async_cache/adapters/memory.py answers after any operations.
use async_task_worker.Base.{
  ℕ, ◌<◌, ◌≤◌, length, Option-cases, String, ◌≡◌, ◌≢◌, refl, true, false, Option, none, some, List,
  [], ◌∷◌, arith, Bool-cases, inl, inr, ◌⊎◌, if◌then◌else◌, str_dec, ite,
}
use async_task_worker.Base.Dict
use async_task_worker.Base.Dict.{Dict, contains}
use async_task_worker.Memory.{
  MemoryCache, init, get, set, delete, clear, at_capacity, store, expired, expiry_at,
}
use async_task_worker.Memory.Oldest.{IsOldest}
use async_task_worker.Memory.Valid.{IsValid, init-IsValid, set_cases, get-IsValid, delete-total}

-- A call, with its readings of the clock.
pub data Call (V : Type 0) : Type 0 where
  get_key : ℕ → String → Call V
  set_key : ℕ → ℕ → String → V → Option ℕ → Call V
  delete_key : String → Call V
  clear_all : Call V

module _ {V : Type 0} where
  unfoldable pub perform : Call V → MemoryCache V → Option (MemoryCache V)
  perform (get_key now k) m = some (get now k m).0
  perform (set_key now later k v ttl) m = set now later k v ttl m
  perform (delete_key k) m = elim (delete k m) [ none ↦ none | some (m', b) ↦ some m' ]
  perform clear_all m = some (clear m)

  unfoldable pub run : List (Call V) → MemoryCache V → Option (MemoryCache V)
  unfolding perform
  run [] m = some m
  run (c ∷ cs) m = elim (perform c m) [ none ↦ none | some m' ↦ run cs m' ]

  perform-IsValid :
      (c : Call V) (m : MemoryCache V)
      → IsValid m
      → (m' : MemoryCache V) × (perform c m ≡ some m') × IsValid m'
  unfolding perform clear Dict.lookup
  perform-IsValid (get_key now k) m v = ((get now k m).0, refl, get-IsValid now k m v)
  perform-IsValid (set_key now later k w ttl) m v =
      let (m', e, u, c) = set_cases now later k w ttl m v in (_, e, u)
  perform-IsValid (delete_key k) m v =
      let (m', e, u, l) = delete-total k m v in (m', rw (e, perform) refl, u)
  perform-IsValid clear_all m v =
      (clear m, refl, record { times = tt; same = λ k. refl; bound = λ n e. omega arith })

  run-IsValid :
      (cs : List (Call V)) (m : MemoryCache V)
      → IsValid m
      → (m' : MemoryCache V) × (run cs m ≡ some m') × IsValid m'
  unfolding run
  run-IsValid [] m v = (m, refl, v)
  run-IsValid (c ∷ cs) m v =
      let (m', e, u) = perform-IsValid c m v in
      let (m'', f, w) = run-IsValid cs m' u in (m'', rw (e, run) f, w)

  -- No calls on a new cache raise a KeyError. Afterwards both dictionaries have the same keys, and
  -- the cache has at most `max_size` entries, or one where `max_size` is 0.
  pub no_key_errors :
      (max_size : Option ℕ) (cs : List (Call V))
      → (m : MemoryCache V) × (run cs (init max_size) ≡ some m) × IsValid m
  no_key_errors max_size cs = run-IsValid cs (init max_size) (init-IsValid max_size)

  store-lookup :
      (now : ℕ) (k j : String) (value : V) (expiry : Option ℕ) (m : MemoryCache V)
      → Dict.lookup j (store now k value expiry m).cache
        ≡ ite (str_dec j k) (some (value, expiry)) (Dict.lookup j m.cache)
  unfolding store
  store-lookup now k j value expiry m = Dict.lookup-insert k j (value, expiry) m.cache

  get_found :
      (now : ℕ) (k : String) (m : MemoryCache V) (value : V) (expiry : Option ℕ)
      → Dict.lookup k m.cache ≡ some (value, expiry)
      → (get now k m).1 ≡ (if expired expiry now then none else some value)
  unfolding get
  get_found now k m value expiry h = elim (Bool-cases (expired expiry now)) [
    | inl e ↦ rw (h, get, e)
    | inr e ↦ rw (h, get, e)
  ]

  -- `set` on a valid cache raises nothing and keeps it valid, and the value is read back until its
  -- time to live has passed, and not after.
  pub set_then_get :
      (now later at : ℕ) (k : String) (value : V) (ttl : Option ℕ) (m : MemoryCache V)
      → IsValid m
      → (m' : MemoryCache V) × (set now later k value ttl m ≡ some m')
        × IsValid m'
        × ((get at k m').1 ≡ (if expired (expiry_at now ttl) at then none else some value))
  set_then_get now later at k value ttl m v =
      let (m', e, u, c) = set_cases now later k value ttl m v in
      (
        _,
        e,
        u,
        get_found at k _ value (expiry_at now ttl)
            (ground (arith, store-lookup later k k value (expiry_at now ttl) m')),
      )

  -- The cache has as many entries as it may have, or fewer.
  abbrev pub IsFull : MemoryCache V → Type 0
  IsFull m = (n : ℕ) × (m.max_size ≡ some n) × (n ≤ length m.cache)

  abbrev pub HasRoom : MemoryCache V → Type 0
  HasRoom m = (m.max_size ≡ none) ⊎ ((n : ℕ) × (m.max_size ≡ some n) × (length m.cache < n))

  at_capacity-IsFull :
      (k : String) (m : MemoryCache V)
      → at_capacity k m ≡ true
      → (contains k m.cache ≡ false) × IsFull m
  unfolding at_capacity
  at_capacity-IsFull k m h = elim (Option-cases m.max_size) [
    | inl e ↦ ground (arith, h, e)
    | inr (n, e) ↦ (ground (arith, h, e), (n, e, ground (arith, h, e)))
  ]

  at_capacity-HasRoom :
      (k : String) (m : MemoryCache V)
      → at_capacity k m ≡ false
      → (contains k m.cache ≡ true) ⊎ HasRoom m
  unfolding at_capacity
  at_capacity-HasRoom k m h = elim (Bool-cases (contains k m.cache)) [
    | inl c ↦ inl c
    | inr c ↦ elim (Option-cases m.max_size) [
      | inl e ↦ inr (inl e)
      | inr (n, e) ↦ inr (inr (n, e, ground (arith, h, c, e)))
    ]
  ]

  -- In a valid cache that holds an entry, a `set` of a key that the cache does not hold drops an entry
  -- that was used longest ago, if the cache is full, and keeps all others; a `set` of a key that it
  -- holds, or in a cache that has room, drops none.
  pub set_evicts :
      (now later : ℕ) (k : String) (value : V) (ttl : Option ℕ) (m : MemoryCache V)
      → IsValid m
      → m.cache ≢ []
      → (m' : MemoryCache V) × (set now later k value ttl m ≡ some m')
        × ((contains k m.cache ≡ false)
              × IsFull m
              × ((victim : String) × IsOldest victim m.access_times
                  × ((j : String)
                      → Dict.lookup j m'.cache
                        ≡ ite
                            (str_dec j k)
                            (some (value, expiry_at now ttl))
                            (ite (str_dec j victim) none (Dict.lookup j m.cache))))
            ⊎ ((contains k m.cache ≡ true) ⊎ HasRoom m)
              × ((j : String)
                  → Dict.lookup j m'.cache
                    ≡ ite (str_dec j k) (some (value, expiry_at now ttl)) (Dict.lookup j m.cache)))
  set_evicts now later k value ttl m v full =
      let (m', e, u, c) = set_cases now later k value ttl m v in
      let stored = λ (j : String). store-lookup later k j value (expiry_at now ttl) m' in
      (
        _,
        e,
        elim c [
          | inl (a, ev) ↦ inl (
            (at_capacity-IsFull k m a).0,
            (at_capacity-IsFull k m a).1,
            (
              ev.victim,
              ev.oldest,
              λ j. ground (arith, stored j, ev.rest, Dict.lookup-delete ev.victim j m.cache),
            ),
          )
          | inr (same, why) ↦ elim why [
            | inl a ↦ inr (at_capacity-HasRoom k m a, λ j. ground (arith, stored j, same))
            | inr nil ↦ absurd (full nil)
          ]
        ],
      )

  -- A `get` of an expired entry misses, removes that entry, and leaves all others.
  pub get_expires :
      (now : ℕ) (k j : String) (m : MemoryCache V) (value : V) (expiry : ℕ)
      → Dict.lookup k m.cache ≡ some (value, some expiry)
      → expiry < now
      → ((get now k m).1 ≡ none)
        × (Dict.lookup j (get now k m).0.cache ≡ ite (str_dec j k) none (Dict.lookup j m.cache))
  unfolding get
  get_expires now k j m value expiry h late =
      let e : expired (some expiry) now ≡ true = ground arith in
      rw (h, get, e) (refl, Dict.lookup-delete k j m.cache)

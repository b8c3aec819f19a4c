-- ===== src/Memory/Valid.antt =====
-- The bookkeeping of src/async_cache/adapters/memory.py: both dictionaries have the same keys, and
-- the cache keeps its bound. No operation raises a KeyError.
use async_task_worker.Base.{
  ℕ, suc, ◌≤◌, max, String, ◌≡◌, refl, true, false, Option, none, some, [], ◌∷◌, arith, length,
  Bool-cases, Option-cases, inl, inr, ◌⊎◌, str_dec, ite, ◌∙◌,
}
use async_task_worker.Base.Dict
use async_task_worker.Base.Dict.{Dict, contains}
use async_task_worker.Memory.{
  MemoryCache, init, get, set, delete, evict_one, at_capacity, store, oldest, expired, expiry_at,
}
use async_task_worker.Memory.Oldest.{
  IsDict, insert-IsDict, delete-IsDict, IsOldest, oldest-IsOldest, oldest-none,
}

module _ {V : Type 0} where
  -- A maximal size of 0 still lets one entry in: an empty cache has nothing to evict.
  pub record IsValid (m : MemoryCache V) : Type 0 where
    pub times : IsDict m.access_times
    pub same : (k : String) → contains k m.cache ≡ contains k m.access_times
    pub bound : (n : ℕ) → m.max_size ≡ some n → length m.cache ≤ max n 1

  pub init-IsValid : (max_size : Option ℕ) → IsValid (init max_size)
  unfolding init Dict.lookup
  init-IsValid max_size = record { times = tt; same = λ k. refl; bound = λ n e. omega arith }

  -- The cache without one of its least recently used entries.
  pub record Evicts (m m' : MemoryCache V) : Type 0 where
    pub victim : String
    pub oldest : IsOldest victim m.access_times
    pub stored : contains victim m.cache ≡ true
    pub rest : m' ≡ record m {
      cache = Dict.delete victim m.cache;
      access_times = Dict.delete victim m.access_times;
    }

  cache-nil : (d : Dict (V × Option ℕ)) → ((k : String) → contains k d ≡ false) → d ≡ []
  unfolding Dict.lookup
  cache-nil [] h = refl
  cache-nil ((k, v) ∷ d) h = ground (arith, h k)

  pub evict_one_cases :
      (m : MemoryCache V)
      → IsValid m
      → (m' : MemoryCache V) × (evict_one m ≡ some m') × (Evicts m m' ⊎ (m.cache ≡ []) × (m' ≡ m))
  unfolding evict_one Dict.lookup
  evict_one_cases m v = elim (Option-cases (oldest m.access_times)) [
    | inl h ↦ (
      m,
      rw (h, evict_one),
      inr (cache-nil m.cache (λ k. empty k (oldest-none m.access_times h)), refl),
    )
    | inr (k, h) ↦
        let o = oldest-IsOldest m.access_times k v.times h in
        let c : contains k m.cache ≡ true = ground (arith, v.same k, o.found) in
        (
          record m { cache = Dict.delete k m.cache; access_times = Dict.delete k m.access_times },
          ground (arith, h, c, o.found),
          inl (record { victim = k; oldest = o; stored = c; rest = refl }),
        )
  ]
    where
      empty : (k : String) → m.access_times ≡ [] → contains k m.cache ≡ false
      empty k e = v.same k ∙ rw e refl

  delete_both-IsValid :
      (k : String) (m : MemoryCache V)
      → IsValid m
      → IsValid
          (record m { cache = Dict.delete k m.cache; access_times = Dict.delete k m.access_times })
  delete_both-IsValid k m v = record {
    times = delete-IsDict k m.access_times v.times;
    same = λ j.
        ground
          (arith, v.same j, Dict.lookup-delete k j m.cache, Dict.lookup-delete k j m.access_times);
    bound = λ n e. omega (arith, v.bound n e, Dict.length-delete-le k m.cache);
  }

  store-IsValid :
      (now : ℕ) (k : String) (value : V) (expiry : Option ℕ) (m : MemoryCache V)
      → IsValid m
      → ((n : ℕ)
          → m.max_size ≡ some n
          → contains k m.cache ≡ false
          → suc (length m.cache) ≤ max n 1)
      → IsValid (store now k value expiry m)
  unfolding store
  store-IsValid now k value expiry m v room = record {
    times = insert-IsDict k now m.access_times v.times;
    same = λ j. ground (
      arith,
      v.same j,
      Dict.lookup-insert k j (value, expiry) m.cache,
      Dict.lookup-insert k j now m.access_times,
    );
    bound =
        λ n e. ground (arith, Dict.length-insert k (value, expiry) m.cache, v.bound n e, room n e);
  }

  set_room :
      (k : String) (m : MemoryCache V)
      → IsValid m
      → at_capacity k m ≡ false
      → (n : ℕ) → m.max_size ≡ some n
      → contains k m.cache ≡ false
      → suc (length m.cache) ≤ max n 1
  unfolding at_capacity
  set_room k m v a n e c = ground arith

  -- `set` stores the value, possibly after an eviction, and never raises.
  pub set_cases :
      (now later : ℕ) (k : String) (value : V) (ttl : Option ℕ) (m : MemoryCache V)
      → IsValid m
      → (m' : MemoryCache V) × (set now later k value ttl m
          ≡ some (store later k value (expiry_at now ttl) m'))
        × IsValid (store later k value (expiry_at now ttl) m')
        × ((at_capacity k m ≡ true) × Evicts m m'
            ⊎ (m' ≡ m) × ((at_capacity k m ≡ false) ⊎ (m.cache ≡ [])))
  unfolding set
  set_cases now later k value ttl m v = elim (Bool-cases (at_capacity k m)) [
    | inr a ↦ (
      m,
      rw (a, set),
      store-IsValid later k value (expiry_at now ttl) m v (set_room k m v a),
      inr (refl, inl a),
    )
    | inl a ↦
        let (m', e, c) = evict_one_cases m v in
        (
          m',
          rw (a, e, set),
          elim c [
            | inl ev ↦ rw ev.rest (
                store-IsValid later k value (expiry_at now ttl) _
                  (delete_both-IsValid ev.victim m v)
                  (λ n q z.
                    omega (arith, v.bound n q, Dict.length-delete-lt ev.victim m.cache ev.stored)))
            | inr (nil, same) ↦ rw same (
                store-IsValid later k value (expiry_at now ttl) m v (λ n q z. rw nil (omega arith)))
          ],
          elim c [ inl ev ↦ inl (a, ev) | inr (nil, same) ↦ inr (same, inr nil) ],
        )
  ]

  pub get-IsValid : (now : ℕ) (k : String) (m : MemoryCache V) → IsValid m → IsValid (get now k m).0
  unfolding get
  get-IsValid now k m v = elim (Option-cases (Dict.lookup k m.cache)) [
    | inl h ↦ rw (h, get) v
    | inr ((value, expiry), h) ↦ elim (Bool-cases (expired expiry now)) [
      | inl e ↦
          rw (h, get, e)
            (record {
              times =
                  delete-IsDict k (Dict.insert k now m.access_times)
                    (insert-IsDict k now m.access_times v.times);
              same = λ j. ground (
                arith,
                v.same j,
                Dict.lookup-delete k j m.cache,
                Dict.lookup-delete k j (Dict.insert k now m.access_times),
                Dict.lookup-insert k j now m.access_times,
              );
              bound = λ n q. omega (arith, v.bound n q, Dict.length-delete-le k m.cache);
            })
      | inr e ↦
          rw (h, get, e)
            (record {
              times = insert-IsDict k now m.access_times v.times;
              same = λ j. ground (arith, v.same j, Dict.lookup-insert k j now m.access_times, h);
              bound = v.bound;
            })
    ]
  ]

  pub delete-total :
      (k : String) (m : MemoryCache V)
      → IsValid m
      → (m' : MemoryCache V) × (delete k m ≡ some (m', contains k m.cache))
        × IsValid m'
        × ((j : String) → Dict.lookup j m'.cache ≡ ite (str_dec j k) none (Dict.lookup j m.cache))
  unfolding delete
  delete-total k m v = elim (Bool-cases (contains k m.cache)) [
    | inl c ↦ (
      record m { cache = Dict.delete k m.cache; access_times = Dict.delete k m.access_times },
      ground (arith, v.same k),
      delete_both-IsValid k m v,
      λ j. Dict.lookup-delete k j m.cache,
    )
    | inr c ↦ (m, ground arith, v, λ j. ground arith)
  ]

-- ===== src/Cache.antt =====
-- src/async_cache/core.py: `AsyncCache` over any `CacheAdapter`.
-- A critical section under `_map_lock` and a call of the adapter is one step each, and no other task
-- runs between them. `now` and `later` are the adapter's readings of the clock, and `n` numbers the
-- UUID that a default key may draw.
mod Keys
pub mod Lawful
pub mod RoundTrip
pub mod Invalidation
mod Cleanup
mod Tests
pub use Keys.{Library, Entry}
unfoldable pub use Keys.{build_context, default_key_fn, sort_fields}
use async_task_worker.Base.{
  ℕ, String, Bool, true, false, not, Option, none, some, List, [], ◌∷◌, if◌then◌else◌, ltb, leb,
  str_dec, ite, ◌*◌, min,
}
use async_task_worker.Base.Dict
use async_task_worker.Base.Dict.{Dict, Set, add}
use async_task_worker.Memory.{CacheAdapter}
use async_task_worker.KeyUtils.{Value, Made, made, invalid_key, failed, KeyFn}

pub record AsyncCache (S : Type 0) : Type 0 where
  pub adapter : S
  pub default_ttl : Option ℕ
  pub enabled : Bool
  pub max_serialized_size : ℕ
  pub validate_keys : Bool
  pub cleanup_interval : ℕ
  pub entry_key_map : Dict String
  pub generated_keys : Option Set
  pub fallback_to_str : Bool
  pub cleanup_task : Bool
  pub cleanup_running : Bool

unfoldable pub init : {S : Type 0} → S → Option ℕ → Bool → ℕ → Bool → ℕ → AsyncCache S
init adapter default_ttl enabled max_serialized_size validate_keys cleanup_interval = record {
  adapter = adapter;
  default_ttl = default_ttl;
  enabled = enabled;
  max_serialized_size = max_serialized_size;
  validate_keys = validate_keys;
  cleanup_interval = cleanup_interval;
  entry_key_map = [];
  generated_keys = if validate_keys then some [] else none;
  fallback_to_str = false;
  cleanup_task = false;
  cleanup_running = false;
}

-- A result, or the InvalidCacheKeyError that `get` and `set` let through.
pub data Result (A : Type 0) : Type 0 where
  ok : A → Result A
  invalid_key_error : Result A

module _ {X V S : Type 0} (lib : Library X V) (adapter : CacheAdapter V S) where
  -- `_validate_key`; `none` is the InvalidCacheKeyError.
  unfoldable pub validate_key : String → AsyncCache S → Option (AsyncCache S)
  validate_key key c =
      if not c.validate_keys
      then some c
      else ite (str_dec key "") none (
          some (record c {
            generated_keys = elim c.generated_keys [
              | none ↦ none
              | some keys ↦ some (add key keys)
            ];
          }))

  abbrev pub key_of : Option (KeyFn X) → ℕ → Value X → Made
  key_of none n context = made (default_key_fn lib n context)
  key_of (some f) n context = f context

  -- The key of an entry, with validation: a failing key function falls back to the default key.
  unfoldable pub validated_key :
      Option (KeyFn X) → ℕ → Value X → AsyncCache S → Option (AsyncCache S × String)
  unfolding validate_key default_key_fn
  validated_key key_fn n context c = elim (key_of key_fn n context) [
    | invalid_key ↦ none
    | failed ↦ some (c, default_key_fn lib n context)
    | made key ↦ elim (validate_key key c) [ none ↦ none | some c' ↦ some (c', key) ]
  ]

  abbrev pub note_entry : Option String → String → AsyncCache S → AsyncCache S
  note_entry none key c = c
  note_entry (some i) key c = record c { entry_key_map = Dict.insert i key c.entry_key_map }

  unfoldable pub get :
      ℕ → ℕ → Entry X → Option (KeyFn X) → AsyncCache S → AsyncCache S × Result (Option V)
  unfolding validated_key build_context
  get now n entry key_fn c =
      if not c.enabled
      then (c, ok none)
      else elim (validated_key key_fn n (build_context entry) c) [
        | none ↦ (c, invalid_key_error)
        | some (c1, key) ↦
            let c2 = note_entry entry.entry_id key c1 in
            let (s, found) = adapter.get now key c2.adapter in (record c2 { adapter = s }, ok found)
      ]

  abbrev pub or_default : Option ℕ → Option ℕ → Option ℕ
  or_default none default = default
  or_default (some t) default = some t

  -- An exception of the adapter is caught: nothing is stored, and the entry id stays mapped.
  unfoldable pub set :
      ℕ
      → ℕ
      → ℕ
      → Entry X
      → V
      → Option ℕ
      → Option (KeyFn X)
      → AsyncCache S
      → AsyncCache S × Result Bool
  unfolding validated_key build_context
  set now later n entry result ttl key_fn c =
      if not c.enabled then (c, ok false) else elim (lib.encoded_size c.fallback_to_str result) [
        | none ↦ (c, ok false)
        | some size ↦
            if ltb c.max_serialized_size size
            then (c, ok false)
            else elim (validated_key key_fn n (build_context entry) c) [
              | none ↦ (c, invalid_key_error)
              | some (c1, key) ↦
                  let c2 = note_entry entry.entry_id key c1 in
                  elim (adapter.set now later key result (or_default ttl c.default_ttl)
                    c2.adapter) [
                      | none ↦ (c2, ok false)
                      | some s ↦ (record c2 { adapter = s }, ok true)
                    ]
            ]
      ]

  abbrev pub forget_key : String → AsyncCache S → AsyncCache S
  forget_key key c = record c {
    generated_keys = elim c.generated_keys [
      | none ↦ none
      | some keys ↦ some (Dict.delete key keys)
    ];
  }

  abbrev pub forget_entry : Option String → AsyncCache S → AsyncCache S
  forget_entry none c = c
  forget_entry (some i) c = record c { entry_key_map = Dict.delete i c.entry_key_map }

  unfoldable pub delete_key : String → AsyncCache S → AsyncCache S × Bool
  delete_key key c = elim (adapter.delete key c.adapter) [
    | none ↦ (c, false)
    | some (s, deleted) ↦ (record c { adapter = s }, deleted)
  ]

  unfoldable pub invalidate :
      ℕ → Entry X → Option (KeyFn X) → AsyncCache S → AsyncCache S × Result Bool
  unfolding build_context default_key_fn delete_key
  invalidate n entry key_fn c =
      let remove = λ (key : String).
        let (c', deleted) = delete_key key (forget_key key (forget_entry entry.entry_id c)) in
        let r : AsyncCache S × Result Bool = (c', ok deleted) in r in
      elim (key_of key_fn n (build_context entry)) [
        | invalid_key ↦ (c, invalid_key_error)
        | failed ↦ remove (default_key_fn lib n (build_context entry))
        | made key ↦ remove key
      ]

  unfoldable pub invalidate_by_id : String → AsyncCache S → AsyncCache S × Bool
  invalidate_by_id entry_id c = elim (Dict.lookup entry_id c.entry_key_map) [
    | none ↦ (c, false)
    | some key ↦
        let (c', success) = delete_key key c in
        if success then (forget_key key (forget_entry (some entry_id) c'), true) else (c', false)
  ]

  unfoldable pub get_cache_key_for_id : String → AsyncCache S → Option String
  get_cache_key_for_id entry_id c = Dict.lookup entry_id c.entry_key_map

  unfoldable pub clear : AsyncCache S → AsyncCache S
  clear c = record c {
    adapter = adapter.clear c.adapter;
    entry_key_map = [];
    generated_keys = elim c.generated_keys [ none ↦ none | some keys ↦ some [] ];
  }

  -- The block of a `with cache.temporarily_disabled():`, also when it raises.
  unfoldable pub temporarily_disabled :
      {R : Type 0} → (AsyncCache S → AsyncCache S × R) → AsyncCache S → AsyncCache S × R
  temporarily_disabled body c =
      let (c', r) = body (record c { enabled = false }) in (record c' { enabled = c.enabled }, r)

  -- The loop of `_cleanup_stale_mappings` over the entry ids: the stale ids with their keys.
  unfoldable pub find_stale : ℕ → List String → Dict String → S → S × List (String × String)
  find_stale now [] map s = (s, [])
  find_stale now (i ∷ is) map s = elim (Dict.lookup i map) [
    | none ↦ find_stale now is map s
    | some key ↦ elim (str_dec key "") [
      | yes _ ↦ find_stale now is map s
      | no _ ↦
          let (s1, found) = adapter.get now key s in
          let (s2, rest) = find_stale now is map s1 in
          (s2, elim found [ some v ↦ rest | none ↦ (i, key) ∷ rest ])
    ]
  ]

  unfoldable pub drop_stale : List (String × String) → AsyncCache S → AsyncCache S
  drop_stale [] c = c
  drop_stale ((i, key) ∷ rest) c = drop_stale rest (forget_key key (forget_entry (some i) c))

  unfoldable pub cleanup_stale_mappings : ℕ → AsyncCache S → AsyncCache S
  unfolding find_stale drop_stale
  cleanup_stale_mappings now c =
      let (s, stale) = find_stale now (Dict.keys c.entry_key_map) c.entry_key_map c.adapter in
      drop_stale stale (record c { adapter = s })

  unfoldable pub start_cleanup_task : AsyncCache S → AsyncCache S
  start_cleanup_task c =
      if leb c.cleanup_interval 0
      then c
      else if c.cleanup_task
      then c
      else record c { cleanup_running = true; cleanup_task = true }

  unfoldable pub stop_cleanup_task : AsyncCache S → AsyncCache S
  stop_cleanup_task c = record c { cleanup_running = false; cleanup_task = false }

-- The delay of `_run_cleanup_task` before its next try, after a failure.
unfoldable pub next_backoff : ℕ → ℕ
next_backoff delay = min (delay * 2) 300

-- ===== src/TaskCache.antt =====
-- src/async_task_worker/adapters/cache_adapter.py: `AsyncCacheAdapter`, and the key function that
-- `add_task` and `invalidate_cache` of src/async_task_worker/core.py build for it.
pub mod Keys
pub mod Reads
pub mod Manager
mod Settings
mod Executed
mod Tests
use Prim.Native.String.{◌++◌}
use async_task_worker.Base.{
  ℕ, String, Bool, true, false, Option, none, some, List, [], ◌∷◌, str_dec, ite, if◌then◌else◌,
}
use async_task_worker.Base.Dict
use async_task_worker.Memory.{CacheAdapter}
use async_task_worker.KeyUtils.{
  Value, text, other, dict, Made, made, invalid_key, failed, KeyFn, field_of, extract_key_component,
  collect_parts,
}
use async_task_worker.Cache
use async_task_worker.Cache.{Library, Entry, AsyncCache, Result}

unfoldable pub generate_entry_id : String → Option String → String
generate_entry_id func_name none = func_name ++ ":unknown"
generate_entry_id func_name (some task_id) = func_name ++ ":" ++ task_id

module _ {X : Type 0} (show : Value X → String) where
  -- `ctx.get("entry_id", "unknown") if "entry_id" in ctx else "no_task_id"`; an entry id is a text.
  unfoldable pub entry_id_part : KeyFn X
  unfolding field_of
  entry_id_part (dict fields) = elim (field_of "entry_id" fields) [
    | some (text i) ↦ made i
    | some (other x) ↦ invalid_key
    | some (dict d) ↦ invalid_key
    | none ↦ made "no_task_id"
  ]
  entry_id_part (text s) = failed
  entry_id_part (other x) = failed

  -- `self._default_key_fn`, the composition of its two parts.
  unfoldable pub default_key_fn : KeyFn X
  unfolding collect_parts extract_key_component entry_id_part
  default_key_fn context =
      collect_parts (extract_key_component show "fn_name" ∷ entry_id_part ∷ []) context []

  -- The key function of `add_task` and `invalidate_cache`, the composition of its three parts.
  unfoldable pub normal_cache_key_fn : KeyFn X
  unfolding collect_parts extract_key_component
  normal_cache_key_fn context =
      collect_parts
        (extract_key_component show "func_name"
          ∷ extract_key_component show "args"
          ∷ extract_key_component show "kwargs"
          ∷ [])
        context []

  abbrev pub effective_key_fn : Option (KeyFn X) → KeyFn X
  effective_key_fn none = default_key_fn
  effective_key_fn (some f) = f

  module _ {V S : Type 0} (lib : Library X V) (adapter : CacheAdapter V S) where
    unfoldable pub get :
        ℕ → ℕ → Entry X → Option (KeyFn X) → AsyncCache S → AsyncCache S × Result (Option V)
    get now n entry f c = Cache.get lib adapter now n entry (some (effective_key_fn f)) c

    unfoldable pub set :
        ℕ
        → ℕ
        → ℕ
        → Entry X
        → V
        → Option ℕ
        → Option (KeyFn X)
        → AsyncCache S
        → AsyncCache S × Result Bool
    set now later n entry result ttl f c =
        Cache.set lib adapter now later n entry result ttl (some (effective_key_fn f)) c

    unfoldable pub invalidate :
        ℕ → Entry X → Option (KeyFn X) → AsyncCache S → AsyncCache S × Result Bool
    invalidate n entry f c = Cache.invalidate lib adapter n entry (some (effective_key_fn f)) c

    unfoldable pub get_by_task_id : ℕ → String → AsyncCache S → AsyncCache S × Option V
    get_by_task_id now task_id c = elim (Cache.get_cache_key_for_id lib adapter task_id c) [
      | none ↦ (c, none)
      | some key ↦
          let (s, found) = adapter.get now key c.adapter in
          let r : AsyncCache S × Option V = (record c { adapter = s }, found) in
          ite (str_dec key "") (c, none) r
    ]

    unfoldable pub invalidate_by_task_id : String → AsyncCache S → AsyncCache S × Bool
    invalidate_by_task_id task_id c = Cache.invalidate_by_id lib adapter task_id c

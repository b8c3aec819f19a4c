-- ===== src/Worker/Caching.antt =====
-- src/async_task_worker/core.py: `invalidate_cache` and `clear_cache`, over the cache adapter of
-- src/async_task_worker/adapters/cache_adapter.py.
use Prim.Native.String.{◌++◌}
use text.Mathlib.Text.{starts_with}
use async_task_worker.Base.{
  ℕ, String, Bool, true, false, not, ◌||◌, Option, none, some, List, [], ◌∷◌, if◌then◌else◌,
  str_dec, ite,
}
use async_task_worker.Memory.{CacheAdapter}
use async_task_worker.KeyUtils.{Value, Fields}
use async_task_worker.Cache
use async_task_worker.Cache.{Library, Entry, AsyncCache, Result, ok, invalid_key_error}
use async_task_worker.TaskCache
use async_task_worker.TaskCache.{normal_cache_key_fn, generate_entry_id}

-- The arguments of `invalidate_cache`: the task id is the keyword argument `_cache_entry_id`, which
-- is taken out of the others.
pub record Request (X : Type 0) : Type 0 where
  pub func_name : String
  pub args : Value X
  pub kwargs : Fields X
  pub task_id : Option String

module _ {X V S : Type 0} (show : Value X → String) (lib : Library X V)
    (adapter : CacheAdapter V S) where
  abbrev pub entry_of : Request X → Entry X
  entry_of r = record {
    fn_name = r.func_name;
    args = r.args;
    kwargs = r.kwargs;
    entry_id = none;
    metadata = none;
  }

  -- The entry of the task, where an id is given that is not empty.
  unfoldable pub invalidate_entry : Request X → AsyncCache S → AsyncCache S × Bool
  unfolding TaskCache.invalidate_by_task_id generate_entry_id
  invalidate_entry r c = elim r.task_id [
    | none ↦ (c, false)
    | some t ↦
        ite (str_dec t "") (c, false)
          (TaskCache.invalidate_by_task_id show lib adapter (generate_entry_id r.func_name (some t))
            c)
  ]

  -- The loop over the mapped ids whose keys start with the name of the function.
  unfoldable pub invalidate_related :
      String → List (String × String) → Bool → AsyncCache S → AsyncCache S × Bool
  unfolding TaskCache.invalidate_by_task_id
  invalidate_related func_name [] any_invalidated c = (c, any_invalidated)
  invalidate_related func_name ((existing_id, cache_key) ∷ rest) any_invalidated c =
      elim (starts_with cache_key (func_name ++ ":")) [
        | false ↦ invalidate_related func_name rest any_invalidated c
        | true ↦
            let (c', invalidated) =
              TaskCache.invalidate_by_task_id show lib adapter existing_id c in
            invalidate_related func_name rest (any_invalidated || invalidated) c'
      ]

  -- The fallback, where the invalidation by key found nothing.
  unfoldable pub invalidate_missed :
      String → AsyncCache S × Result Bool → AsyncCache S × Result Bool
  unfolding invalidate_related
  invalidate_missed func_name (c, ok false) =
      let (c', any_invalidated) = invalidate_related func_name c.entry_key_map false c in
      (c', ok any_invalidated)
  invalidate_missed func_name (c, ok true) = (c, ok true)
  invalidate_missed func_name (c, invalid_key_error) = (c, invalid_key_error)

  -- The invalidation by key, where the one by id found nothing.
  unfoldable pub invalidate_by_key :
      ℕ → Request X → AsyncCache S × Bool → AsyncCache S × Result Bool
  unfolding invalidate_missed TaskCache.invalidate
  invalidate_by_key n r (c, true) = (c, ok true)
  invalidate_by_key n r (c, false) =
      invalidate_missed r.func_name
        (TaskCache.invalidate show lib adapter n (entry_of r) (some (normal_cache_key_fn show)) c)

  unfoldable pub invalidate_cache : ℕ → Request X → AsyncCache S → AsyncCache S × Result Bool
  unfolding invalidate_entry invalidate_by_key
  invalidate_cache n r c =
      if not c.enabled then (c, ok false) else invalidate_by_key n r (invalidate_entry r c)

  unfoldable pub clear_cache : AsyncCache S → AsyncCache S
  clear_cache c = if c.enabled then Cache.clear lib adapter c else c

-- ===== src/Worker/Invalidated.antt =====
-- What `invalidate_cache` of src/async_task_worker/core.py takes out of the cache.
use Prim.Native.String.{◌++◌}
use async_task_worker.Base.{
  ℕ, String, ◌≡◌, ◌≢◌, refl, ap, ◌∙◌, Bool, true, false, Option, none, some, arith, ite, str_dec,
  if_pos,
}
use async_task_worker.Memory.{CacheAdapter}
use async_task_worker.KeyUtils.{Value, dict, made}
use async_task_worker.Cache
use async_task_worker.Cache.{
  Library, Entry, AsyncCache, Result, ok, build_context, key_of, delete_key, forget_key,
  forget_entry,
}
use async_task_worker.Cache.Lawful.{IsLawful}
use async_task_worker.Cache.RoundTrip.{validated_made, get_answer}
use async_task_worker.TaskCache
use async_task_worker.TaskCache.{normal_cache_key_fn}
use async_task_worker.TaskCache.Keys.{normal_key_ignores_function}
use async_task_worker.TaskCache.Reads.{none_key}
use async_task_worker.Worker.Caching.{
  Request, entry_of, invalidate_cache, invalidate_entry, invalidate_by_key, invalidate_missed,
}

-- The key of the adapter for the arguments.
abbrev pub cached_key : {X : Type 0} → (Value X → String) → Request X → String
cached_key show r = "none" ++ ":" ++ show r.args ++ ":" ++ show (dict r.kwargs)

module _ {X V S : Type 0} (show : Value X → String) (lib : Library X V)
    (adapter : CacheAdapter V S) where
  invalidate-made :
      (n : ℕ) (r : Request X) (c : AsyncCache S) (key : String) (s : S) (b : Bool)
      → normal_cache_key_fn show (build_context (entry_of show lib adapter r)) ≡ made key
      → adapter.delete key c.adapter ≡ some (s, b)
      → TaskCache.invalidate show lib adapter n
          (entry_of show lib adapter r)
          (some (normal_cache_key_fn show))
          c
        ≡ (record (forget_key lib adapter key c) { adapter = s }, ok b)
  unfolding TaskCache.invalidate Cache.invalidate delete_key
  invalidate-made n r c key s b e d = rw (e, d, TaskCache.invalidate, Cache.invalidate, delete_key)

  invalidate_cache-on :
      (n : ℕ) (r : Request X) (c : AsyncCache S)
      → c.enabled ≡ true
      → invalidate_cache show lib adapter n r c
        ≡ invalidate_by_key show lib adapter n r (invalidate_entry show lib adapter r c)
  unfolding invalidate_cache
  invalidate_cache-on n r c on = ground (arith, on)

  no_entry :
      (r : Request X) (c : AsyncCache S)
      → r.task_id ≡ none
      → invalidate_entry show lib adapter r c ≡ (c, false)
  unfolding invalidate_entry
  no_entry r c h = ground (arith, h)

  invalidate_cache-found :
      (n : ℕ) (r : Request X) (c c' : AsyncCache S)
      → c.enabled ≡ true
      → r.task_id ≡ none
      → TaskCache.invalidate show lib adapter n
          (entry_of show lib adapter r)
          (some (normal_cache_key_fn show))
          c
        ≡ (c', ok true)
      → invalidate_cache show lib adapter n r c ≡ (c', ok true)
  unfolding invalidate_cache invalidate_by_key invalidate_missed
  invalidate_cache-found n r c c' on no_id h =
      invalidate_cache-on n r c on
      ∙ ap (invalidate_by_key show lib adapter n r) (no_entry r c no_id)
      ∙ ap (invalidate_missed show lib adapter r.func_name) h

  module _ (lawful : IsLawful adapter) where
    open lawful use {Valid, peek, get_peek, delete_peek}

    -- Where the cache holds a result under the key of the arguments, `invalidate_cache` without a task
    -- id answers true; a lookup for these arguments, whatever its function and id, then finds no
    -- result; and the results under all other keys stay. The cache must be enabled, and its adapter
    -- lawful and valid.
    pub invalidate_cache-removes :
        (n n' at : ℕ) (r : Request X) (other_fn : String) (other_id : Option String)
        (c : AsyncCache S) (j : String)
        → c.enabled ≡ true
        → Valid c.adapter
        → r.task_id ≡ none
        → peek at (cached_key show r) c.adapter ≢ none
        → let c' = (invalidate_cache show lib adapter n r c).0 in
          ((invalidate_cache show lib adapter n r c).1 ≡ ok true)
          × ((TaskCache.get show lib adapter at n'
                (record (entry_of show lib adapter r) { fn_name = other_fn; entry_id = other_id })
                (some (normal_cache_key_fn show))
                c').1
              ≡ ok none)
          × (peek at j c'.adapter ≡ ite (str_dec j (cached_key show r)) none (peek at j c.adapter))
    unfolding TaskCache.get
    invalidate_cache-removes n n' at r other_fn other_id c j on v no_id held =
        let key = cached_key show r in
        let (k, same) =
          normal_key_ignores_function show (entry_of show lib adapter r) other_fn other_id in
        let (s, b, a, w, left, d) = delete_peek at key c.adapter v in
        let c' = record (forget_key lib adapter key c) { adapter = s } in
        let done =
          invalidate_cache-found n r c c' on no_id
            (invalidate-made n r c key s true k (a ∙ ap (λ x. some (s, x)) (d held))) in
        let other = record (entry_of show lib adapter r) {
          fn_name = other_fn;
          entry_id = other_id;
        } in
        let (g, m) =
          validated_made lib adapter (some (normal_cache_key_fn show)) n' (build_context other) c'
            key (same ∙ k) (none_key _) in
        rw done (
          refl,
          get_answer lib adapter at n' other (some (normal_cache_key_fn show)) c'
                (record c' { generated_keys = g }) key on m
              ∙ ap ok (
                  get_peek at key s
                  ∙ left key
                  ∙ if_pos (str_dec key key) refl none (peek at key c.adapter)),
          left j,
        )

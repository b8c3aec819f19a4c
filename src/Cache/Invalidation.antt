-- ===== src/Cache/Invalidation.antt =====
-- Taking results out of `AsyncCache` of src/async_cache/core.py: by entry id, by the cleanup of
-- stale mappings, and while the cache is disabled.
use async_task_worker.Base.{
  ℕ, String, ◌≡◌, ◌≢◌, refl, Bool, true, false, Option, none, some, arith, ite, str_dec, ◌∙◌, ap,
}
use async_task_worker.Base.Dict
use async_task_worker.Base.Dict.{Dict, Set}
use async_task_worker.Memory.{CacheAdapter}
use async_task_worker.KeyUtils.{made, KeyFn}
use async_task_worker.Cache.{
  Library, Entry, AsyncCache, ok, build_context, key_of, get, set, invalidate_by_id, delete_key,
  forget_key, forget_entry, temporarily_disabled,
}
use async_task_worker.Cache.Lawful.{IsLawful}
use async_task_worker.Cache.RoundTrip.{validated_made, get_answer}

module _ {X V S : Type 0} (lib : Library X V) (adapter : CacheAdapter V S) where
  -- Inside `temporarily_disabled` nothing is found and nothing is stored, and afterwards the cache
  -- is as it was, its flag included.
  pub disabled_skips :
      (now later n : ℕ) (entry : Entry X) (result : V) (ttl : Option ℕ) (f : Option (KeyFn X))
      (c : AsyncCache S)
      → (temporarily_disabled lib adapter (get lib adapter now n entry f) c ≡ (c, ok none))
        × (temporarily_disabled lib adapter (set lib adapter now later n entry result ttl f) c
            ≡ (c, ok false))
  unfolding temporarily_disabled get set
  disabled_skips now later n entry result ttl f c = (refl, refl)

  deleted :
      (key : String) (c : AsyncCache S) (s : S) (b : Bool)
      → adapter.delete key c.adapter ≡ some (s, b)
      → delete_key lib adapter key c ≡ (record c { adapter = s }, b)
  unfolding delete_key
  deleted key c s b a = rw (a, delete_key)

  invalidated :
      (i : String) (c : AsyncCache S) (key : String) (s : S)
      → Dict.lookup i c.entry_key_map ≡ some key
      → adapter.delete key c.adapter ≡ some (s, true)
      → invalidate_by_id lib adapter i c ≡ (
        forget_key lib adapter key (forget_entry lib adapter (some i) (record c { adapter = s })),
        true,
      )
  unfolding invalidate_by_id
  invalidated i c key s mapped a = rw (mapped, deleted key c s true a, invalidate_by_id)

  module _ (lawful : IsLawful adapter) where
    open lawful use {Valid, peek, get_peek, get_keeps, delete_peek}

    -- Invalidating an entry id takes the result out: if the id is mapped to a key that the cache
    -- holds, the call answers true, the id is no longer mapped, a later `get` for that key finds
    -- nothing, and the results under all other keys stay.
    pub invalidate_by_id_removes :
        (at n : ℕ) (i : String) (entry : Entry X) (f : Option (KeyFn X)) (c : AsyncCache S)
        (key j : String)
        → c.enabled ≡ true
        → Valid c.adapter
        → Dict.lookup i c.entry_key_map ≡ some key
        → peek at key c.adapter ≢ none
        → key_of lib adapter f n (build_context entry) ≡ made key
        → key ≢ ""
        → ((invalidate_by_id lib adapter i c).1 ≡ true)
          × (Dict.lookup i (invalidate_by_id lib adapter i c).0.entry_key_map ≡ none)
          × ((get lib adapter at n entry f (invalidate_by_id lib adapter i c).0).1 ≡ ok none)
          × (peek at j (invalidate_by_id lib adapter i c).0.adapter
              ≡ ite (str_dec j key) none (peek at j c.adapter))
    invalidate_by_id_removes at n i entry f c key j on v mapped held e full =
        let (s, b, a, w, r, d) = delete_peek at key c.adapter v in
        let c' =
          forget_key lib adapter key
            (forget_entry lib adapter (some i) (record c { adapter = s })) in
        let done = invalidated i c key s mapped (a ∙ ap (λ x. some (s, x)) (d held)) in
        let (g, m) = validated_made lib adapter f n (build_context entry) c' key e full in
        (
          ap (λ p. p.1) done,
          rw done (ground (arith, Dict.lookup-delete i i c.entry_key_map)),
          rw done (
              get_answer lib adapter at n entry f c' (record c' { generated_keys = g }) key on m
              ∙ ap ok (get_peek at key s ∙ ground (arith, r key))),
          rw done (r j),
        )

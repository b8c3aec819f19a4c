-- ===== src/Redis/Stored.antt =====
-- What `set` of src/async_cache/core.py stores through the Redis adapter of
-- src/async_cache/adapters/redis.py.
use async_task_worker.Base.{ℕ, ◌≤◌, ◌≡◌, ◌≢◌, refl, ap, ◌∙◌, String, true, Option, none, some}
use async_task_worker.KeyUtils.{made, KeyFn}
use async_task_worker.Memory.{CacheAdapter}
use async_task_worker.Cache
use async_task_worker.Cache.{
  Library, Entry, AsyncCache, build_context, key_of, or_default, note_entry,
}
use async_task_worker.Cache.RoundTrip.{validated_made, set_stored, get_answer, note-adapter}
use async_task_worker.Serialization
use async_task_worker.Serialization.{PyValue, Python, MsgPack, Result, ok, error}
use async_task_worker.Redis
use async_task_worker.Redis.{RedisClient, Serializer, redis_adapter, msgpack_serializer}

module _ {X V B S : Type 0} (lib : Library X V) (serializer : Serializer V B)
    (client : RedisClient B S) (key_prefix : String) where
  -- What a `get` answers after a `set` that the cache lets through.
  pub get-set :
      (now later at n n' size : ℕ) (entry entry' : Entry X) (result : V) (ttl : Option ℕ)
      (f f' : Option (KeyFn X)) (c : AsyncCache S) (key : String)
      → c.enabled ≡ true
      → lib.encoded_size c.fallback_to_str result ≡ some size
      → size ≤ c.max_serialized_size
      → key_of lib (redis_adapter serializer client key_prefix) f n (build_context entry) ≡ made key
      → key_of lib (redis_adapter serializer client key_prefix) f' n' (build_context entry')
        ≡ made key
      → key ≢ ""
      → ((Cache.set lib
            (redis_adapter serializer client key_prefix)
            now
            later
            n
            entry
            result
            ttl
            f
            c).1
          ≡ Cache.Result.ok true)
        × ((Cache.get lib
              (redis_adapter serializer client key_prefix)
              at
              n'
              entry'
              f'
              (Cache.set lib
                (redis_adapter serializer client key_prefix)
                now
                later
                n
                entry
                result
                ttl
                f
                c).0).1
            ≡ Cache.Result.ok (
                Redis.get serializer client key_prefix at key (
                  Redis.set serializer client key_prefix now key result
                    (or_default lib (redis_adapter serializer client key_prefix) ttl c.default_ttl)
                    c.adapter)))
  get-set now later at n n' size entry entry' result ttl f f' c key on enc fits e e' full =
      let adapter = redis_adapter serializer client key_prefix in
      let s =
        Redis.set serializer client key_prefix now key result
          (or_default lib adapter ttl c.default_ttl) c.adapter in
      let (g, made1) = validated_made lib adapter f n (build_context entry) c key e full in
      let stored =
        set_stored lib adapter now later n size entry result ttl f c
          (record c { generated_keys = g }) s key on enc fits made1 refl in
      let c2 =
        record (note_entry lib adapter entry.entry_id key (record c { generated_keys = g })) {
          adapter = s;
        } in
      let (h, made2) = validated_made lib adapter f' n' (build_context entry') c2 key e' full in
      let live =
        (note-adapter lib adapter entry.entry_id key (record c { generated_keys = g })).1 ∙ on in
      (
        ap (λ p. p.1) stored,
        rw stored (
            get_answer lib adapter at n' entry' f' c2 (record c2 { generated_keys = h }) key live
              made2),
      )

-- `len(MsgPackSerializer.encode(…))`
abbrev pub size_of : {B : Type 0} → (B → ℕ) → Result B → Option ℕ
size_of size (ok b) = some (size b)
size_of size (error e) = none

-- The cache measures a result by what MsgPack writes for it.
abbrev pub measured :
    {X B A D U : Type 0}
    → Library X (PyValue A D U)
    → Python A D U
    → MsgPack B A D U
    → ℕ
    → (B → ℕ)
    → Library X (PyValue A D U)
measured lib py msgpack frames size = record lib {
  encoded_size = λ fallback v. size_of size (Serialization.encode py msgpack frames fallback v);
}

-- The Redis adapter with its MsgPack serializer.
abbrev pub msgpack_adapter :
    {B A D U S : Type 0}
    → Python A D U
    → MsgPack B A D U
    → ℕ
    → RedisClient B S
    → String
    → CacheAdapter (PyValue A D U) S
msgpack_adapter py msgpack frames client key_prefix =
    redis_adapter (msgpack_serializer py msgpack frames) client key_prefix

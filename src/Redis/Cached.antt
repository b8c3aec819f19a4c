-- ===== src/Redis/Cached.antt =====
-- src/async_cache/core.py over src/async_cache/adapters/redis.py with
-- src/async_cache/serialization.py.
use async_task_worker.Base.{
  ℕ, ◌≤◌, ◌≡◌, ◌≢◌, refl, ap, ◌∙◌, String, true, false, Option, none, some, if◌then◌else◌, str_dec,
  if_pos, inl,
}
use async_task_worker.KeyUtils.{made, KeyFn}
use async_task_worker.Cache
use async_task_worker.Cache.{
  Library, Entry, AsyncCache, build_context, key_of, or_default, note_entry,
}
use async_task_worker.Serialization.{PyValue, Python, MsgPack}
use async_task_worker.Serialization.Documented.{Documented}
use async_task_worker.Serialization.Images.{encodable, unreserved, depth}
use async_task_worker.Serialization.Refused.{encode_refused}
use async_task_worker.Serialization.RoundTrip.{objectless, decode-encode_objectless}
use async_task_worker.Redis
use async_task_worker.Redis.{RedisClient, Serializer, redis_adapter, msgpack_serializer}
use async_task_worker.Redis.Server.{Connected}
use async_task_worker.Redis.Answers.{lives, set_get, set_skips}
use async_task_worker.Redis.Stored.{get-set, measured, msgpack_adapter}

module _ {X B A D U S : Type 0} (other : Library X (PyValue A D U)) {py : Python A D U}
    {msgpack : MsgPack B A D U} (doc : Documented py msgpack) (frames : ℕ) (size : B → ℕ)
    {client : RedisClient B S} (server : Connected client) (key_prefix : String) where
  open doc use {limit}

  -- Over a connected server: a result of texts, atoms, integers from 0 to 2 ^ 64 - 1, lists,
  -- dictionaries, datetimes and UUIDs that holds no tuple, no object and no key `__type_code`, and that
  -- is small enough and not nested too deeply, is stored by the enabled cache under a key that is not
  -- empty, and read back by every later `get` that makes the same key, until its time to live, which is
  -- not zero, has passed, and not after.
  pub cached_round_trip :
      (now later at n n' m : ℕ) (entry entry' : Entry X) (v : PyValue A D U) (ttl : Option ℕ)
      (f f' : Option (KeyFn X)) (c : AsyncCache S) (key : String)
      → c.enabled ≡ true
      → (measured other py msgpack frames size).encoded_size c.fallback_to_str v ≡ some m
      → m ≤ c.max_serialized_size
      → key_of
          (measured other py msgpack frames size)
          (msgpack_adapter py msgpack frames client key_prefix)
          f
          n
          (build_context entry)
        ≡ made key
      → key_of
          (measured other py msgpack frames size)
          (msgpack_adapter py msgpack frames client key_prefix)
          f'
          n'
          (build_context entry')
        ≡ made key
      → key ≢ ""
      → encodable v ≡ true
      → unreserved v ≡ true
      → objectless v ≡ true
      → depth v ≤ frames
      → depth v ≤ limit
      → or_default
          (measured other py msgpack frames size)
          (msgpack_adapter py msgpack frames client key_prefix)
          ttl
          c.default_ttl
        ≢ some 0
      → ((Cache.set
            (measured other py msgpack frames size)
            (msgpack_adapter py msgpack frames client key_prefix)
            now
            later
            n
            entry
            v
            ttl
            f
            c).1
          ≡ Cache.Result.ok true)
        × ((Cache.get
              (measured other py msgpack frames size)
              (msgpack_adapter py msgpack frames client key_prefix)
              at
              n'
              entry'
              f'
              (Cache.set
                (measured other py msgpack frames size)
                (msgpack_adapter py msgpack frames client key_prefix)
                now
                later
                n
                entry
                v
                ttl
                f
                c).0).1
            ≡ Cache.Result.ok (
                if lives now
                  (or_default
                    (measured other py msgpack frames size)
                    (msgpack_adapter py msgpack frames client key_prefix)
                    ttl
                    c.default_ttl)
                  at
                then some v
                else none))
  unfolding msgpack_serializer
  cached_round_trip now later at n n' m entry entry' v ttl f f' c key on enc fits e e' full can free
        plain h l alive =
      let life =
        or_default (measured other py msgpack frames size)
          (msgpack_adapter py msgpack frames client key_prefix) ttl c.default_ttl in
      let (done, found) =
        get-set (measured other py msgpack frames size) (msgpack_serializer py msgpack frames)
          client key_prefix now later at n n' m entry entry' v ttl f f' c key on enc fits e e'
          full in
      let (b, writes, reads) = decode-encode_objectless doc frames false v can free plain h l in
      let read =
        set_get (msgpack_serializer py msgpack frames) server key_prefix now at key key v b life
          c.adapter writes reads alive in
      (
        done,
        found
            ∙ ap Cache.Result.ok (
                read
                ∙ if_pos (str_dec key key) refl (if lives now life at then some v else none) (
                    Redis.get (msgpack_serializer py msgpack frames) client key_prefix at key
                      c.adapter)),
      )

  -- Where the cache allows texts as fallback, a result with a function in it is reported as stored,
  -- but Redis keeps what it held under the key.
  pub fallback_not_stored :
      (now later at n n' m : ℕ) (entry entry' : Entry X) (v : PyValue A D U) (ttl : Option ℕ)
      (f f' : Option (KeyFn X)) (c : AsyncCache S) (key : String)
      → c.enabled ≡ true
      → c.fallback_to_str ≡ true
      → (measured other py msgpack frames size).encoded_size true v ≡ some m
      → m ≤ c.max_serialized_size
      → key_of
          (measured other py msgpack frames size)
          (msgpack_adapter py msgpack frames client key_prefix)
          f
          n
          (build_context entry)
        ≡ made key
      → key_of
          (measured other py msgpack frames size)
          (msgpack_adapter py msgpack frames client key_prefix)
          f'
          n'
          (build_context entry')
        ≡ made key
      → key ≢ ""
      → encodable v ≡ false
      → ((Cache.set
            (measured other py msgpack frames size)
            (msgpack_adapter py msgpack frames client key_prefix)
            now
            later
            n
            entry
            v
            ttl
            f
            c).1
          ≡ Cache.Result.ok true)
        × ((Cache.get
              (measured other py msgpack frames size)
              (msgpack_adapter py msgpack frames client key_prefix)
              at
              n'
              entry'
              f'
              (Cache.set
                (measured other py msgpack frames size)
                (msgpack_adapter py msgpack frames client key_prefix)
                now
                later
                n
                entry
                v
                ttl
                f
                c).0).1
            ≡ Cache.Result.ok (
                Redis.get
                  (msgpack_serializer py msgpack frames)
                  client
                  key_prefix
                  at
                  key
                  c.adapter))
  unfolding msgpack_serializer
  fallback_not_stored now later at n n' m entry entry' v ttl f f' c key on fall enc fits e e' full
        cannot =
      let life =
        or_default (measured other py msgpack frames size)
          (msgpack_adapter py msgpack frames client key_prefix) ttl c.default_ttl in
      let (done, found) =
        get-set (measured other py msgpack frames size) (msgpack_serializer py msgpack frames)
          client key_prefix now later at n n' m entry entry' v ttl f f' c key on
          (ap (λ b. (measured other py msgpack frames size).encoded_size b v) fall ∙ enc) fits e e'
          full in
      let same =
        set_skips (msgpack_serializer py msgpack frames) server key_prefix now key v life c.adapter
          (inl (encode_refused doc frames v cannot)) in
      (
        done,
        found
            ∙ ap
                (λ s.
                  Cache.Result.ok
                    (Redis.get (msgpack_serializer py msgpack frames) client key_prefix at key s))
                same,
      )

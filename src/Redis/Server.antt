-- ===== src/Redis/Server.antt =====
-- What src/async_cache/adapters/redis.py relies on in a Redis server that it is connected to.
use Prim.Native.String.{◌++◌}
use Prim.Native.Char.{code}
use async_task_worker.Base.{
  ℕ, suc, ◌+◌, ◌*◌, ◌<◌, ◌≡◌, ◌≢◌, String, Bool, true, false, ◌||◌, Option, none, some, List, [],
  ◌∷◌, ltb, if◌then◌else◌, ◌==◌, ite, str_dec,
}
use async_task_worker.Base.Dict.{has}
use async_task_worker.Serialization.{ok}
use async_task_worker.Redis.{RedisClient}

-- No character of the text has a meaning in a pattern of Redis.
unfoldable pub is_plain : String → Bool
is_plain String.[] = true
is_plain (String.◌∷◌ c s) =
    let rest = is_plain s in
    if code c == b'*' || code c == b'?' || code c == b'[' || code c == b'\\' then false else rest

-- The documented behaviour. `stored at k s` is what the server holds under a key at a time.
pub record Connected {B S : Type 0} (client : RedisClient B S) : Type 0 where
  pub stored : ℕ → String → S → Option B
  pub gets : (now : ℕ) (k : String) (s : S) → client.get now k s ≡ ok (stored now k s)
  pub sets :
      (now at : ℕ) (k j : String) (b : B) (s : S)
      → stored at j (client.set now k b s).0 ≡ ite (str_dec j k) (some b) (stored at j s)
  pub setexes :
      (now at ttl : ℕ) (k j : String) (b : B) (s : S)
      → stored at j (client.setex now k (suc ttl) b s).0
        ≡ ite (str_dec j k) (if ltb (now + suc ttl * 1000) at then none else some b) (stored at j s)
  -- A time to live of zero is an error.
  pub setex_zero : (now : ℕ) (k : String) (b : B) (s : S) → (client.setex now k 0 b s).0 ≡ s
  pub deletes :
      (at : ℕ) (j : String) (ks : List String) (s : S)
      → stored at j (client.delete ks s).0 ≡ (if has j ks then none else stored at j s)
  pub counts :
      (k : String) (s : S)
      → (n : ℕ) × ((client.delete (k ∷ []) s).1 ≡ ok n)
        × ((at : ℕ) → stored at k s ≢ none → 0 < n)
        × (((at : ℕ) → stored at k s ≡ none) → n ≡ 0)
  pub matches : String → String → Bool
  pub scans :
      (pattern : String) (s : S)
      → (ks : List String) × (client.scan_iter pattern s ≡ ok ks)
        × ((k : String) → has k ks ≡ true → matches pattern k ≡ true)
        × ((at : ℕ) (k : String)
            → matches pattern k ≡ true
            → stored at k s ≢ none
            → has k ks ≡ true)
  -- A pattern with a star at its end alone matches the texts with that prefix.
  pub matches_prefix : (p i : String) → is_plain p ≡ true → matches (p ++ "*") (p ++ i) ≡ true
  pub matches_only :
      (p k : String) → is_plain p ≡ true → matches (p ++ "*") k ≡ true → (i : String) × (k ≡ p ++ i)

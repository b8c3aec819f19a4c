-- ===== src/Redis.antt =====
-- src/async_cache/adapters/redis.py: `RedisCacheAdapter`.
-- The Redis client, with the state of the server, and the serializer are parameters; a call of the
-- client that raises answers an error. A time is a whole number of milliseconds, a TTL one of
-- seconds.
pub mod Server
pub mod Answers
mod Stored
pub mod Cached
pub mod Simulated
mod Tests
use Prim.Native.String.{◌++◌}
use async_task_worker.Base.{ℕ, String, Bool, false, Option, none, some, List, [], ◌∷◌, ltb}
use async_task_worker.Serialization
use async_task_worker.Serialization.{Result, ok, error, PyValue, Python, MsgPack}
use async_task_worker.Memory.{CacheAdapter}

-- What the adapter calls of a `redis.asyncio.Redis`.
pub record RedisClient (B S : Type 0) : Type 0 where
  pub get : ℕ → String → S → Result (Option B)
  pub set : ℕ → String → B → S → S × Result (Unit {0})
  pub setex : ℕ → String → ℕ → B → S → S × Result (Unit {0})
  pub delete : List String → S → S × Result ℕ
  pub scan_iter : String → S → Result (List String)
  pub close : S → S × Result (Unit {0})

-- `MsgPackSerializer.encode` and `MsgPackSerializer.decode`.
pub record Serializer (V B : Type 0) : Type 0 where
  pub encode : V → Result B
  pub decode : B → Result V

unfoldable pub msgpack_serializer :
    {A D U B : Type 0} → Python A D U → MsgPack B A D U → ℕ → Serializer (PyValue A D U) B
msgpack_serializer py msgpack frames = record {
  encode = Serialization.encode py msgpack frames false;
  decode = Serialization.decode py msgpack;
}

-- How `__init__` asks the library for a new client.
pub data Connection (P : Type 0) : Type 0 where
  by_pool : P → Connection P
  by_address : String → ℕ → ℕ → Option String → Connection P

-- `__init__`: the client of the adapter, or `none` for the ImportError of a missing library.
unfoldable pub choose_client :
    {P C : Type 0}
    → Option (Connection P → C)
    → String
    → ℕ
    → ℕ
    → Option String
    → Option P
    → Option C
    → Option C
choose_client redis host port db password connection_pool client = elim redis [
  | none ↦ none
  | some create ↦ elim client [
    | some c ↦ some c
    | none ↦ elim connection_pool [
      | some pool ↦ some (create (by_pool pool))
      | none ↦ some (create (by_address host port db password))
    ]
  ]
]

module _ {V B S : Type 0} (serializer : Serializer V B) (client : RedisClient B S)
    (key_prefix : String) where
  abbrev pub prefixed_key : String → String
  prefixed_key key = key_prefix ++ key

  abbrev pub decoded : Option B → Option V
  decoded none = none
  decoded (some b) = elim (serializer.decode b) [ ok v ↦ some v | error e ↦ none ]

  -- A miss, also where the client or the serializer raises.
  unfoldable pub get : ℕ → String → S → Option V
  get now key s = elim (client.get now (prefixed_key key) s) [
    | ok found ↦ decoded found
    | error e ↦ none
  ]

  unfoldable pub set : ℕ → String → V → Option ℕ → S → S
  set now key value ttl s = elim (serializer.encode value) [
    | error e ↦ s
    | ok b ↦ elim ttl [
      | some t ↦ (client.setex now (prefixed_key key) t b s).0
      | none ↦ (client.set now (prefixed_key key) b s).0
    ]
  ]

  abbrev pub positive : Result ℕ → Bool
  positive (ok n) = ltb 0 n
  positive (error e) = false

  unfoldable pub delete : String → S → S × Bool
  delete key s = let (s', result) = client.delete (prefixed_key key ∷ []) s in (s', positive result)

  unfoldable pub clear : S → S
  clear s = elim (client.scan_iter (key_prefix ++ "*") s) [
    | error e ↦ s
    | ok [] ↦ s
    | ok (k ∷ ks) ↦ (client.delete (k ∷ ks) s).0
  ]

  unfoldable pub close : S → S
  close s = (client.close s).0

  abbrev pub redis_adapter : CacheAdapter V S
  redis_adapter = record {
    get = λ now key s. (s, get now key s);
    set = λ now later key value ttl s. some (set now key value ttl s);
    delete = λ key s. some (delete key s);
    clear = clear;
  }

-- ===== src/Redis/Tests.antt =====
-- src/async_cache/adapters/redis.py on small inputs, over a server in memory.
use Prim.Native.String.{◌++◌}
use Prim.Native.Char.{code}
use text.Mathlib.TextLemmas.{cons-append}
use async_task_worker.Base.{
  ℕ, ◌≡◌, ◌≢◌, refl, ap, String, true, false, Option, none, some, [], ◌∷◌, ltb, arith, str_dec,
  if◌then◌else◌,
}
use async_task_worker.Base.Dict
use async_task_worker.Base.Dict.{Dict}
use async_task_worker.KeyUtils.{other, end, made, KeyFn}
use async_task_worker.Memory.{CacheAdapter}
use async_task_worker.Cache
use async_task_worker.Cache.{Library, Entry, AsyncCache, or_default}
use async_task_worker.Serialization
use async_task_worker.Serialization.{function, Result, ok, error, is_ok}
use async_task_worker.Serialization.Sample.{Value, python, library as sample, documented, reply}
use async_task_worker.Serialization.Images.{encodable, unreserved, depth, is_reserved}
use async_task_worker.Serialization.RoundTrip.{objectless}
use async_task_worker.Serialization.Documented.{prepare, is_native, pack_parts}
use async_task_worker.Redis.{Serializer, msgpack_serializer, get, set, clear}
use async_task_worker.Redis.Simulated.{simulated, simulated-Connected}
use async_task_worker.Redis.Stored.{measured, msgpack_adapter}
use async_task_worker.Redis.Cached.{cached_round_trip, fallback_not_stored}

-- Numbers stand for themselves, up to 100.
abbrev small : Serializer ℕ ℕ
small = record { encode = λ n. if ltb 100 n then error "too large" else ok n; decode = λ b. ok b }

abbrev shared : Dict (ℕ × Option ℕ)
shared = ("app:a", (1, none)) ∷ ("web:a", (2, some 500)) ∷ []

set_runs :
    set small simulated "app:" 10 "b" 7 (some 2) shared
    ≡ ("app:a", (1, none)) ∷ ("web:a", (2, some 500)) ∷ ("app:b", (7, some 2_010)) ∷ []
unfolding set simulated Dict.insert str_dec
set_runs = refl

set_too_large : set small simulated "app:" 10 "b" 101 none shared ≡ shared
unfolding set
set_too_large = refl

clear_runs : clear small simulated "app:" shared ≡ ("web:a", (2, some 500)) ∷ []
unfolding clear simulated Dict.delete str_dec
clear_runs = refl

get_expired : get small simulated "web:" 501 "a" shared ≡ none
unfolding get simulated Dict.lookup str_dec
get_expired = refl

first : String → ℕ
first String.[] = 0
first (String.◌∷◌ c s) = code c

first_app : (i : String) → first ("app:" ++ i) ≡ b'a'
unfolding first
first_app i = ap first (cons-append _ "pp:" i)

foreign : (i : String) → ◌≢◌ {A = String} "web:a" ("app:" ++ i)
unfolding first
foreign i e = absurd (omega (arith, ap first e, first_app i))

abbrev other_library : Library ℕ Value
other_library = record {
  encoded_size = λ fallback v. none;
  digest = λ f a k. some "digest";
  unique = λ n. "0";
}

abbrev by_name : KeyFn ℕ
by_name context = made "user:1"

abbrev entry : Entry ℕ
entry = record {
  fn_name = "load";
  args = other 1;
  kwargs = end;
  entry_id = some "load:1";
  metadata = none;
}

abbrev over_redis : AsyncCache (Dict (Value × Option ℕ))
over_redis = record (Cache.init [] (some 60) true 100 false 900) { fallback_to_str = true }

abbrev lib : Library ℕ Value
lib = measured other_library python sample 9 (λ b. 1)

abbrev adapter : CacheAdapter Value (Dict (Value × Option ℕ))
adapter = msgpack_adapter python sample 9 simulated "app:"

program : Unit {0}
unfolding Serialization.encode Serialization.encode_hook Serialization.encode_with prepare is_native
    pack_parts depth encodable unreserved objectless is_reserved str_dec
program = tt

cached_round_trip_example :
    ((Cache.set lib adapter 10 11 0 entry reply none (some by_name) over_redis).1
      ≡ Cache.Result.ok true)
    × ((Cache.get lib adapter 20 0 entry
          (some by_name)
          (Cache.set lib adapter 10 11 0 entry reply none (some by_name) over_redis).0).1
        ≡ Cache.Result.ok (some reply))
unfolding program Cache.init
cached_round_trip_example =
    cached_round_trip other_library documented 9 (λ b. 1) simulated-Connected "app:" 10 11 20 0 0 1
      entry entry reply none (some by_name) (some by_name) over_redis "user:1" refl refl
      (omega arith) refl refl (λ e. cc) refl refl refl (omega arith) (omega arith) (λ e. cc)

fallback_not_stored_example :
    ((Cache.set lib adapter 10 11 0 entry (function "f") none (some by_name) over_redis).1
      ≡ Cache.Result.ok true)
    × ((Cache.get lib adapter 20 0 entry
          (some by_name)
          (Cache.set lib adapter 10 11 0 entry (function "f") none (some by_name) over_redis).0).1
        ≡ Cache.Result.ok
            (get (msgpack_serializer python sample 9) simulated "app:" 20 "user:1" []))
unfolding program Cache.init
fallback_not_stored_example =
    fallback_not_stored other_library documented 9 (λ b. 1) simulated-Connected "app:" 10 11 20 0 0
      1 entry entry (function "f") none (some by_name) (some by_name) over_redis "user:1" refl refl
      refl (omega arith) refl refl (λ e. cc) refl

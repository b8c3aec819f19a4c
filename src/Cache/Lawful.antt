-- ===== src/Cache/Lawful.antt =====
-- What src/async_cache/core.py relies on in a `CacheAdapter`, and that the memory adapter of
-- src/async_cache/adapters/memory.py gives it.
use async_task_worker.Base.{
  ℕ, String, ◌≡◌, Bool, true, Option, none, some, arith, ite, str_dec, if◌then◌else◌, Option-cases,
  Bool-cases, inl, inr, ◌≢◌, ◌∙◌, sym,
}
use async_task_worker.Base.Dict
use async_task_worker.Base.Dict.{contains}
use async_task_worker.Memory
use async_task_worker.Memory.{CacheAdapter, MemoryCache, memory_adapter, expired, expiry_at}
use async_task_worker.Memory.Valid.{IsValid, get-IsValid, delete-total}
use async_task_worker.Memory.Reads.{set_then_get}

-- `peek` is what a `get` at a time would answer, as a function of the state.
pub record IsLawful {V S : Type 0} (adapter : CacheAdapter V S) : Type 1 where
  pub Valid : S → Type 0
  pub peek : ℕ → String → S → Option V
  pub get_peek : (now : ℕ) (k : String) (s : S) → (adapter.get now k s).1 ≡ peek now k s
  pub get_keeps :
      (now : ℕ) (k j : String) (s : S) → peek now j (adapter.get now k s).0 ≡ peek now j s
  pub get_Valid : (now : ℕ) (k : String) (s : S) → Valid s → Valid (adapter.get now k s).0
  pub set_peek :
      (now later at : ℕ) (k : String) (v : V) (ttl : Option ℕ) (s : S)
      → Valid s
      → (s' : S) × (adapter.set now later k v ttl s ≡ some s')
        × Valid s'
        × (peek at k s' ≡ (if expired (expiry_at now ttl) at then none else some v))
  pub delete_peek :
      (at : ℕ) (k : String) (s : S)
      → Valid s
      → (s' : S) × (deleted : Bool) × (adapter.delete k s ≡ some (s', deleted))
        × Valid s'
        × ((j : String) → peek at j s' ≡ ite (str_dec j k) none (peek at j s))
        × (peek at k s ≢ none → deleted ≡ true)

module _ {V : Type 0} where
  unfoldable pub memory_peek : ℕ → String → MemoryCache V → Option V
  memory_peek now k m = elim (Dict.lookup k m.cache) [
    | none ↦ none
    | some (value, expiry) ↦ if expired expiry now then none else some value
  ]

  pub memory_get_peek :
      (now : ℕ) (k : String) (m : MemoryCache V) → (Memory.get now k m).1 ≡ memory_peek now k m
  unfolding Memory.get memory_peek
  memory_get_peek now k m = elim (Option-cases (Dict.lookup k m.cache)) [
    | inl h ↦ rw (h, Memory.get, memory_peek)
    | inr ((v, e), h) ↦ elim (Bool-cases (expired e now)) [
      | inl x ↦ rw (h, Memory.get, memory_peek, x)
      | inr x ↦ rw (h, Memory.get, memory_peek, x)
    ]
  ]

  pub memory_get_keeps :
      (now : ℕ) (k j : String) (m : MemoryCache V)
      → memory_peek now j (Memory.get now k m).0 ≡ memory_peek now j m
  unfolding Memory.get memory_peek
  memory_get_keeps now k j m = elim (Option-cases (Dict.lookup k m.cache)) [
    | inl h ↦ rw (h, Memory.get)
    | inr ((v, e), h) ↦ elim (Bool-cases (expired e now)) [
      | inl x ↦ rw (h, Memory.get, x) (ground (arith, Dict.lookup-delete k j m.cache))
      | inr x ↦ rw (h, Memory.get, x)
    ]
  ]

  pub memory_set_peek :
      (now later at : ℕ) (k : String) (v : V) (ttl : Option ℕ) (m : MemoryCache V)
      → IsValid m
      → (m' : MemoryCache V) × (Memory.set now later k v ttl m ≡ some m')
        × IsValid m'
        × (memory_peek at k m' ≡ (if expired (expiry_at now ttl) at then none else some v))
  memory_set_peek now later at k v ttl m valid =
      let (m', e, u, r) = set_then_get now later at k v ttl m valid in
      (m', e, u, sym (memory_get_peek at k m') ∙ r)

  pub memory_delete_peek :
      (at : ℕ) (k : String) (m : MemoryCache V)
      → IsValid m
      → (m' : MemoryCache V) × (deleted : Bool) × (Memory.delete k m ≡ some (m', deleted))
        × IsValid m'
        × ((j : String) → memory_peek at j m' ≡ ite (str_dec j k) none (memory_peek at j m))
        × (memory_peek at k m ≢ none → deleted ≡ true)
  unfolding memory_peek
  memory_delete_peek at k m valid =
      let (m', e, u, l) = delete-total k m valid in
      (m', contains k m.cache, e, u, λ j. ground (arith, l j), λ h. ground (arith, h))

  -- The memory adapter meets what `AsyncCache` relies on.
  abbrev pub memory_lawful : IsLawful (memory_adapter {V = V})
  memory_lawful = record {
    Valid = IsValid;
    peek = memory_peek;
    get_peek = memory_get_peek;
    get_keeps = memory_get_keeps;
    get_Valid = get-IsValid;
    set_peek = memory_set_peek;
    delete_peek = memory_delete_peek;
  }

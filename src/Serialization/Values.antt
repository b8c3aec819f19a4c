-- ===== src/Serialization/Values.antt =====
-- The Python values that src/async_cache/serialization.py tells apart.
use async_task_worker.Base.{
  ℕ, ◌≤◌, arith, String, Bool, true, false, Option, none, some, str_dec, ite,
}

-- An integer from 0 to 2 ^ 64 - 1.
pub record Word : Type 0 where
  pub value : ℕ
  pub small : value ≤ 18_446_744_073_709_551_615

abbrev pub type_datetime : Word
type_datetime = record { value = 1; small = omega arith }

abbrev pub type_custom_object : Word
type_custom_object = record { value = 2; small = omega arith }

abbrev pub type_uuid : Word
type_uuid = record { value = 3; small = omega arith }

abbrev pub type_string_fallback : Word
type_string_fallback = record { value = 99; small = omega arith }

-- `A` holds the other values that MsgPack supports natively (None, booleans, floats, bytes, integers
-- from -2 ^ 63 to -1, …), `D` the datetimes and `U` the UUIDs. An object has a `__dict__` and a slotted
-- one has `__slots__`; each carries the name and the module of its class. An opaque value has neither:
-- MsgPack calls its hook for it, as it does for an integer that is out of its range. Keys of
-- dictionaries are texts. Texts have no surrogates, and texts and containers are not longer than
-- MsgPack's 2 ^ 32 - 1.
mutual
  pub data PyValue (A D U : Type 0) : Type 0 where
    atom : A → PyValue A D U
    num : Word → PyValue A D U
    str : String → PyValue A D U
    list : Items A D U → PyValue A D U
    tuple : Items A D U → PyValue A D U
    dict : Fields A D U → PyValue A D U
    datetime : D → PyValue A D U
    uuid : U → PyValue A D U
    function : String → PyValue A D U
    object : String → String → Fields A D U → PyValue A D U
    slotted : String → String → Slots A D U → PyValue A D U
    opaque : String → PyValue A D U

  pub data Items (A D U : Type 0) : Type 0 where
    nil : Items A D U
    cons : PyValue A D U → Items A D U → Items A D U

  pub data Fields (A D U : Type 0) : Type 0 where
    end : Fields A D U
    field : String → PyValue A D U → Fields A D U → Fields A D U

  pub data Slots (A D U : Type 0) : Type 0 where
    no_slots : Slots A D U
    unset : String → Slots A D U → Slots A D U
    slot : String → PyValue A D U → Slots A D U → Slots A D U

-- A result, or the text of the exception that was raised.
pub data Result {ℓ} (R : Type ℓ) : Type ℓ where
  ok : R → Result R
  error : String → Result R

infixl 5 ◌>>=◌
abbrev pub ◌>>=◌ {ℓ κ} : {R : Type ℓ} {T : Type κ} → Result R → (R → Result T) → Result T
ok r >>= f = f r
error e >>= f = error e

abbrev pub map_result {ℓ κ} : {R : Type ℓ} {T : Type κ} → (R → T) → Result R → Result T
map_result f (ok r) = ok (f r)
map_result f (error e) = error e

abbrev pub is_ok {ℓ} : {R : Type ℓ} → Result R → Bool
is_ok (ok r) = true
is_ok (error e) = false

module _ {A D U : Type 0} where
  unfoldable pub get_field : String → Fields A D U → Option (PyValue A D U)
  get_field k end = none
  get_field k (field j v fs) = ite (str_dec k j) (some v) (get_field k fs)

  -- `d[k] = v`
  unfoldable pub set_field : String → PyValue A D U → Fields A D U → Fields A D U
  set_field k v end = field k v end
  set_field k v (field j w fs) = ite (str_dec k j) (field k v fs) (field j w (set_field k v fs))

  -- `{**base, **more}`
  unfoldable pub merge : Fields A D U → Fields A D U → Fields A D U
  merge base end = base
  merge base (field k v fs) = merge (set_field k v base) fs

  -- The slots of an object that are set, in the order of `__slots__`.
  unfoldable pub present : Slots A D U → Fields A D U
  present no_slots = end
  present (unset k ss) = present ss
  present (slot k v ss) = field k v (present ss)

-- What the source uses of Python: the name of a value's type, `str`, which may raise, the texts of datetimes and
-- UUIDs and their readers, and whether an atom equals a number (as `True == 1` does).
pub record Python (A D U : Type 0) : Type 0 where
  pub type_name : PyValue A D U → String
  pub str_of : PyValue A D U → Result String
  pub isoformat : D → String
  pub fromisoformat : String → Result D
  pub uuid_text : U → String
  pub uuid_of : String → Result U
  pub equals : A → ℕ → Bool

-- `msgpack.packb(v, default=hook)` and `msgpack.unpackb(b, object_hook=hook)`.
pub record MsgPack (B A D U : Type 0) : Type 0 where
  pub packb : (PyValue A D U → Result (PyValue A D U)) → PyValue A D U → Result B
  pub unpackb : (Fields A D U → Result (PyValue A D U)) → B → Result (PyValue A D U)

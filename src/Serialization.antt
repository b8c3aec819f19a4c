-- ===== src/Serialization.antt =====
-- src/async_cache/serialization.py: `MsgPackSerializer`.
-- Python and the MsgPack library are parameters. `_encode_hook` calls packb with itself as hook:
-- `frames` is how often it may do so before Python raises its RecursionError.
pub mod Values
pub mod Documented
pub mod Images
pub mod Rebuilt
pub mod Packed
pub mod Refused
pub mod Fallback
pub mod RoundTrip
pub mod Sample
mod Tests
use Prim.Native.String.{◌++◌}
use async_task_worker.Base.{
  ℕ, zero, suc, String, Bool, true, false, Option, none, some, if◌then◌else◌, ◌==◌,
}
pub use Values.{
  Word, PyValue, atom, num, str, list, tuple, dict, datetime, uuid, function, object, slotted,
  opaque, Items, type_datetime, type_custom_object, type_uuid, type_string_fallback, nil, cons,
  Fields, end, field, Slots, no_slots, unset, slot, Python, MsgPack, Result, ok, error,
}
unfoldable pub use Values.{get_field, set_field, merge, present, ◌>>=◌, map_result, is_ok}

module _ {A D U : Type 0} (py : Python A D U) where
  abbrev pub typed : Word → Fields A D U → PyValue A D U
  typed code fs = dict (field "__type_code" (num code) fs)

  abbrev pub shown : PyValue A D U → String → PyValue A D U
  shown o s =
      typed type_string_fallback (field "type" (str (py.type_name o)) (field "data" (str s) end))

  -- `str(obj)` may raise.
  unfoldable pub string_fallback : PyValue A D U → Result (PyValue A D U)
  string_fallback o = map_result (shown o) (py.str_of o)

  -- The loops over `__dict__` and `__slots__`: each value is tried, and kept as it is.
  unfoldable pub collect :
      {B : Type 0} → (PyValue A D U → Result B) → Bool → Fields A D U → Result (Fields A D U)
  unfolding string_fallback
  collect packs fallback end = ok end
  collect packs fallback (field k v fs) =
      let rest = collect packs fallback fs in
      elim (packs v) [
        | ok _ ↦ map_result (field k v) rest
        | error e ↦
            if fallback then (string_fallback v >>= λ w. map_result (field k w) rest) else error e
      ]

  abbrev pub not_serializable : String → Result (PyValue A D U)
  not_serializable name = error ("Object of type " ++ name ++ " is not serializable")

  -- The `return` of the two loops, and their `except Exception`.
  unfoldable pub custom_object :
      PyValue A D U → String → String → Bool → Result (Fields A D U) → Result (PyValue A D U)
  unfolding string_fallback
  custom_object o cls module_name fallback (ok fs) = ok (
      typed type_custom_object
        (field "type" (str cls) (field "module" (str module_name) (field "data" (dict fs) end))))
  custom_object o cls module_name fallback (error e) =
      if fallback
      then string_fallback o
      else error ("Object of type " ++ py.type_name o ++ " is not serializable: " ++ e)

  abbrev pub last_resort : Bool → PyValue A D U → Result (PyValue A D U)
  last_resort fallback o = if fallback then string_fallback o else not_serializable (py.type_name o)

  -- `obj["data"]` as a text.
  unfoldable pub read_text : Fields A D U → Result String
  read_text obj = elim (get_field "data" obj) [
    | none ↦ error "'data'"
    | some (str s) ↦ ok s
    | some _ ↦ error "argument must be str"
  ]

  unfoldable pub item : String → Fields A D U → Result (PyValue A D U)
  item k obj = elim (get_field k obj) [ none ↦ error ("'" ++ k ++ "'") | some v ↦ ok v ]

  unfoldable pub spread : Fields A D U → PyValue A D U → Result (PyValue A D U)
  spread base (dict fs) = ok (dict (merge base fs))
  spread base v = error "argument after ** must be a mapping"

  unfoldable pub code_is : Word → PyValue A D U → Bool
  code_is code (num n) = n.value == code.value
  code_is code (atom a) = py.equals a code.value
  code_is code v = false

  unfoldable pub read_fallback : Fields A D U → Result (PyValue A D U)
  unfolding item
  read_fallback obj = do
    t ← item "type" obj
    v ← item "data" obj
    ok (dict (field "__serialized_string_of_type" t (field "value" v end)))

  unfoldable pub read_object : Fields A D U → Result (PyValue A D U)
  unfolding item spread
  read_object obj = do
    t ← item "type" obj
    m ← item "module" obj
    v ← item "data" obj
    spread (field "__type" t (field "__module" m end)) v

  unfoldable pub decode_typed : PyValue A D U → Fields A D U → Result (PyValue A D U)
  unfolding read_text code_is read_fallback read_object
  decode_typed code obj =
      if code_is type_datetime code
      then (read_text obj >>= λ s. map_result datetime (py.fromisoformat s))
      else if code_is type_uuid code
      then (read_text obj >>= λ s. map_result uuid (py.uuid_of s))
      else if code_is type_string_fallback code
      then read_fallback obj
      else if code_is type_custom_object code
      then read_object obj
      else ok (dict obj)

  -- `_decode_hook`; MsgPack calls it with dictionaries only.
  unfoldable pub decode_hook : Fields A D U → Result (PyValue A D U)
  unfolding decode_typed
  decode_hook obj = elim (get_field "__type_code" obj) [
    | none ↦ ok (dict obj)
    | some code ↦ decode_typed code obj
  ]

  -- The body of `_encode_hook`, given how it tries to pack a value.
  unfoldable pub encode_with :
      {B : Type 0} → (PyValue A D U → Result B) → Bool → PyValue A D U → Result (PyValue A D U)
  unfolding string_fallback collect custom_object
  encode_with packs fallback (datetime d) =
      ok (typed type_datetime (field "data" (str (py.isoformat d)) end))
  encode_with packs fallback (uuid u) =
      ok (typed type_uuid (field "data" (str (py.uuid_text u)) end))
  encode_with packs fallback (function s) =
      if fallback
      then string_fallback (function s)
      else error ("Functions of type " ++ py.type_name (function s) ++ " are not serializable")
  encode_with packs fallback (object cls module_name attributes) =
      custom_object (object cls module_name attributes) cls module_name fallback
        (collect packs fallback attributes)
  encode_with packs fallback (slotted cls module_name slots) =
      custom_object (slotted cls module_name slots) cls module_name fallback
        (collect packs fallback (present slots))
  encode_with packs fallback other = last_resort fallback other

module _ {B A D U : Type 0} (py : Python A D U) (msgpack : MsgPack B A D U) where
  -- `_encode_hook`
  unfoldable pub encode_hook : ℕ → Bool → PyValue A D U → Result (PyValue A D U)
  encode_hook zero fallback obj = error "maximum recursion depth exceeded"
  encode_hook (suc frames) fallback obj =
      encode_with py (msgpack.packb (encode_hook frames false)) fallback obj

  unfoldable pub encode : ℕ → Bool → PyValue A D U → Result B
  unfolding encode_hook
  encode frames fallback obj = elim (msgpack.packb (encode_hook frames fallback) obj) [
    | ok b ↦ ok b
    | error e ↦ error ("Failed to serialize object: " ++ e)
  ]

  unfoldable pub decode : B → Result (PyValue A D U)
  unfolding decode_hook
  decode b = elim (msgpack.unpackb (decode_hook py) b) [
    | ok v ↦ ok v
    | error e ↦ error ("Failed to deserialize data: " ++ e)
  ]

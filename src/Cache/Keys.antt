-- ===== src/Cache/Keys.antt =====
-- src/async_cache/core.py: the context of a cache entry, and its default key.
-- Code that is not in the repository stands behind `Library`: msgpack, MD5 and UUIDs.
use Prim.Native.String.{◌++◌}
use async_task_worker.Base.{ℕ, String, Bool, Option, none, some, if◌then◌else◌, str_lt}
use async_task_worker.KeyUtils.{Value, text, other, dict, Fields, end, field, field_of}

-- `encoded_size fallback result` is the length of `MsgPackSerializer.encode`, or `none` for a
-- SerializationError. `digest` is the MD5 of the packed name, arguments and sorted keyword
-- arguments. `unique` is the text of the n-th UUID.
pub record Library (X V : Type 0) : Type 0 where
  pub encoded_size : Bool → V → Option ℕ
  pub digest : Value X → Value X → Fields X → Option String
  pub unique : ℕ → String

-- The call that a cache entry is for.
pub record Entry (X : Type 0) : Type 0 where
  pub fn_name : String
  pub args : Value X
  pub kwargs : Fields X
  pub entry_id : Option String
  pub metadata : Option (Value X)

module _ {X : Type 0} where
  unfoldable pub build_context : Entry X → Value X
  build_context e =
      let metadata : Fields X = elim e.metadata [ none ↦ end | some m ↦ field "metadata" m end ] in
      let entry : Fields X = elim e.entry_id [
        | none ↦ metadata
        | some i ↦ field "entry_id" (text i) metadata
      ] in
      dict (
        field "fn_name" (text e.fn_name)
          (field "args" e.args (field "kwargs" (dict e.kwargs) entry)))

  -- `dict(sorted(kwargs.items()))`, by insertion.
  unfoldable pub insert_sorted : String → Value X → Fields X → Fields X
  insert_sorted k v end = field k v end
  insert_sorted k v (field j w rest) =
      if str_lt k j then field k v (field j w rest) else field j w (insert_sorted k v rest)

  unfoldable pub sort_fields : Fields X → Fields X
  unfolding insert_sorted
  sort_fields end = end
  sort_fields (field k v rest) = insert_sorted k v (sort_fields rest)

-- `context[key]`
abbrev pub look : {X : Type 0} → String → Value X → Option (Value X)
look k (dict fields) = field_of k fields
look k (text s) = none
look k (other x) = none

-- `context.get("fn_name", "unknown")`
abbrev pub name_or_unknown : {X : Type 0} → Option (Value X) → String
name_or_unknown (some (text s)) = s
name_or_unknown _ = "unknown"

module _ {X V : Type 0} (lib : Library X V) where
  -- A KeyError or a SerializationError gives a key that matches nothing else.
  unfoldable pub default_key_fn : ℕ → Value X → String
  unfolding sort_fields
  default_key_fn n context =
      let fallback = "error_" ++ name_or_unknown (look "fn_name" context) ++ "_" ++ lib.unique n in
      elim (look "fn_name" context) [
        | none ↦ fallback
        | some f ↦ elim (look "args" context) [
          | none ↦ fallback
          | some a ↦ elim (look "kwargs" context) [
            | some (dict kw) ↦ elim (lib.digest f a (sort_fields kw)) [
              | none ↦ fallback
              | some h ↦ h
            ]
            | _ ↦ fallback
          ]
        ]
      ]

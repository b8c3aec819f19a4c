-- ===== src/KeyUtils.antt =====
-- src/async_cache/key_utils.py: key functions, their composition and the extraction of a component.
-- A context is a value of the dynamic language: a text, a dictionary of values, or any other value
-- of the type `X`. Python's `str` is the parameter `show`.
mod Laws
mod Tests
use Prim.Native.Char.{Char, code}
use async_task_worker.Base.{
  ℕ, String, Bool, true, false, Option, none, some, List, [], ◌∷◌, if◌then◌else◌, ◌==◌, str_dec,
  ite,
}
use Prim.Native.String.{◌++◌}

mutual
  pub data Value (X : Type 0) : Type 0 where
    text : String → Value X
    other : X → Value X
    dict : Fields X → Value X

  pub data Fields (X : Type 0) : Type 0 where
    end : Fields X
    field : String → Value X → Fields X → Fields X

-- What a call of a key function comes to: a key, an InvalidCacheKeyError, or another exception.
pub data Made : Type 0 where
  made : String → Made
  invalid_key : Made
  failed : Made

abbrev pub KeyFn : Type 0 → Type 0
KeyFn X = Value X → Made

-- `s.split(".")`
unfoldable pub split_dots : String → List String
split_dots String.[] = "" ∷ []
split_dots (String.◌∷◌ c s) =
    let rest = split_dots s in
    if code c == b'.'
    then "" ∷ rest
    else elim rest [ [] ↦ (String.◌∷◌ c String.[]) ∷ [] | w ∷ ws ↦ (String.◌∷◌ c w) ∷ ws ]

-- `":".join(parts)`
unfoldable pub join_colons : List String → String
join_colons [] = ""
join_colons (p ∷ ps) = elim ps [ [] ↦ p | _ ∷ _ ↦ p ++ ":" ++ join_colons ps ]

-- `parts.append(part)`
unfoldable pub snoc : List String → String → List String
snoc [] p = p ∷ []
snoc (q ∷ qs) p = q ∷ snoc qs p

module _ {X : Type 0} where
  unfoldable pub field_of : String → Fields X → Option (Value X)
  field_of k end = none
  field_of k (field j v rest) = ite (str_dec k j) (some v) (field_of k rest)

  -- `value[part]` where `value` is a dictionary that has it.
  unfoldable pub step_into : String → Value X → Option (Value X)
  unfolding field_of
  step_into part (dict fields) = field_of part fields
  step_into part (text s) = none
  step_into part (other x) = none

  -- The loop of `extract`.
  unfoldable pub walk : List String → Value X → Option (Value X)
  unfolding step_into
  walk [] value = some value
  walk (part ∷ parts) value = elim (step_into part value) [ none ↦ none | some v ↦ walk parts v ]

  unfoldable pub extract_key_component : (Value X → String) → String → KeyFn X
  unfolding walk split_dots
  extract_key_component show key_path context = elim (walk (split_dots key_path) context) [
    | none ↦ made "none"
    | some value ↦ made (show value)
  ]

  -- The loop of `composed`, with the parts so far in front.
  unfoldable pub collect_parts : List (KeyFn X) → Value X → List String → Made
  unfolding join_colons snoc
  collect_parts [] context parts = made (join_colons parts)
  collect_parts (f ∷ fs) context parts = elim (f context) [
    | made part ↦ collect_parts fs context (snoc parts part)
    | invalid_key ↦ invalid_key
    | failed ↦ failed
  ]

  -- `none` is the ValueError for no function at all.
  unfoldable pub compose_key_functions : List (KeyFn X) → Option (KeyFn X)
  unfolding collect_parts
  compose_key_functions [] = none
  compose_key_functions (f ∷ fs) = some (λ context. collect_parts (f ∷ fs) context [])

  -- `key_component(name)(func)`; the name of the function stands in for a missing name.
  unfoldable pub key_component : Option String → String → KeyFn X → KeyFn X
  key_component name func_name func context = elim (func context) [
    | made result ↦ made (
        (elim name [ none ↦ func_name | some n ↦ ite (str_dec n "") func_name n ]) ++ ":" ++ result)
    | invalid_key ↦ invalid_key
    | failed ↦ failed
  ]

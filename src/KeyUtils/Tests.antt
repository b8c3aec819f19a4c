-- ===== src/KeyUtils/Tests.antt =====
-- The key functions of src/async_cache/key_utils.py on small inputs, and the theorem at these.
use async_task_worker.Base.{String, ◌≡◌, refl, ℕ, str_dec}
use async_task_worker.KeyUtils.{
  Value, text, other, dict, end, field, made, KeyFn, extract_key_component,
}

abbrev show : Value ℕ → String
show (text s) = s
show (other n) = "123"
show (dict d) = "{}"

abbrev context : Value ℕ
context =
    dict
      (field "fn_name" (text "load") (field "kwargs" (dict (field "user_id" (other 123) end)) end))

abbrev user : KeyFn ℕ
user = extract_key_component show "kwargs.user_id"

abbrev function : KeyFn ℕ
function = extract_key_component show "fn_name"

user_of_context : user context ≡ made "123"
unfolding extract_key_component str_dec
user_of_context = refl

missing_path : extract_key_component show "kwargs.page" context ≡ made "none"
unfolding extract_key_component str_dec
missing_path = refl

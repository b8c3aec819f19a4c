-- ===== src/Registry.antt =====
-- src/async_task_worker/registry.py: the functions by task type. The registry is one dictionary, and
-- a change under `_REGISTRY_LOCK` is one step.
mod Types
mod Tests
use async_task_worker.Base.{
  String, Bool, true, false, not, Option, none, some, List, [], ◌∷◌, str_dec, ite, if◌then◌else◌,
}
use async_task_worker.Base.Dict
use async_task_worker.Base.Dict.{Dict, keys}

-- The new registry, or the exception of `register_task`.
pub data Registered (F : Type 0) : Type 0 where
  registered : Dict F → Registered F
  value_error : Registered F
  type_error : Registered F

module _ {F : Type 0} (is_coroutine : F → Bool) where
  unfoldable pub register_task : String → F → Dict F → Registered F
  register_task task_type task_func registry =
      if ite (str_dec task_type "") true false
      then value_error
      else if not (is_coroutine task_func)
      then type_error
      else registered (Dict.insert task_type task_func registry)

unfoldable pub get_task_function : {F : Type 0} → String → Dict F → Option F
get_task_function task_type registry = Dict.lookup task_type registry

unfoldable pub get_all_task_types : {F : Type 0} → Dict F → List String
get_all_task_types registry = keys registry

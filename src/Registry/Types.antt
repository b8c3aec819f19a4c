-- ===== src/Registry/Types.antt =====
-- src/async_task_worker/registry.py: what a registration changes.
use async_task_worker.Base.{
  String, ◌≡◌, Bool, true, false, some, arith, str_dec, ite, Bool-cases, inl, inr, if_pos, if_neg,
}
use async_task_worker.Base.Dict
use async_task_worker.Base.Dict.{Dict, contains, has, has-keys, keys, IsUnique, insert-IsUnique}
use async_task_worker.Registry.{
  Registered, registered, value_error, type_error, register_task, get_task_function,
  get_all_task_types,
}

-- What a registration must come to.
abbrev pub Registers : {F : Type 0} → (F → Bool) → String → F → Dict F → Registered F → Type 0
Registers is_coroutine t f registry value_error = t ≡ ""
Registers is_coroutine t f registry type_error = is_coroutine f ≡ false
Registers is_coroutine t f registry (registered registry') =
    IsUnique registry'
    × ((u : String)
        → get_task_function u registry' ≡ ite (str_dec u t) (some f) (get_task_function u registry))
    × ((u : String)
        → has u (get_all_task_types registry')
          ≡ ite (str_dec u t) true (has u (get_all_task_types registry)))

module _ {F : Type 0} (is_coroutine : F → Bool) where
  -- `register_task` raises a ValueError only for the empty type and a TypeError only for a function
  -- that is no coroutine. Otherwise the type, and no other, has the new function from then on, it
  -- is among the listed types with all earlier ones, and no type is listed twice.
  pub register_task-Registers :
      (t : String) (f : F) (registry : Dict F)
      → IsUnique registry
      → Registers is_coroutine t f registry (register_task is_coroutine t f registry)
  unfolding register_task get_task_function get_all_task_types
  register_task-Registers t f registry u = elim (str_dec t "") [
    | yes e ↦ rw (register_task, if_pos (str_dec t "") e) e
    | no n ↦ elim (Bool-cases (is_coroutine f)) [
      | inr h ↦ rw (register_task, if_neg (str_dec t "") n, h) h
      | inl h ↦
          rw (register_task, if_neg (str_dec t "") n, h)
            (
              insert-IsUnique t f registry u,
              λ j. Dict.lookup-insert t j f registry,
              λ j. ground (
                arith,
                has-keys j registry,
                has-keys j (Dict.insert t f registry),
                Dict.lookup-insert t j f registry,
              ),
            )
    ]
  ]

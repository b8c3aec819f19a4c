-- ===== src/Registry/Tests.antt =====
-- The registry of src/async_task_worker/registry.py on small inputs, and the theorem at these.
use async_task_worker.Base.{◌≡◌, refl, Bool, true, false, ℕ, [], ◌∷◌, str_dec, ◌==◌}
use async_task_worker.Base.Dict
use async_task_worker.Registry.{registered, type_error, register_task}

-- A function is a number, and all but 0 are coroutines.
abbrev coroutine : ℕ → Bool
coroutine f = elim (f == 0) [ true ↦ false | false ↦ true ]

replaced : register_task coroutine "load" 2 (("load", 1) ∷ []) ≡ registered (("load", 2) ∷ [])
unfolding register_task str_dec Dict.insert
replaced = refl

refused : register_task coroutine "load" 0 [] ≡ type_error
unfolding register_task str_dec
refused = refl

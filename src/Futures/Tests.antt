-- ===== src/Futures/Tests.antt =====
-- The futures of src/async_task_worker/futures.py on small inputs, and the theorems at these.
use async_task_worker.Base.{ℕ, ◌≡◌, refl, some, List, [], ◌∷◌, str_dec}
use async_task_worker.Base.Dict
use async_task_worker.Base.Dict.{contains}
use async_task_worker.Futures.{
  resolved, withdrawn, at, new_manager, get_future, set_result, cancel_all_futures, cancel_future,
  complete_from_result,
}
use async_task_worker.Futures.Sound.{IsSound}
use async_task_worker.Futures.Calls.{Call, get, resolve, cancel, run, futures_tracked, run_final}

program : Unit {0}
unfolding get_future set_result cancel_all_futures cancel_future run str_dec Dict.lookup Dict.insert
    Dict.delete complete_from_result
program = tt

abbrev calls : List (Call ℕ)
calls = get "a" ∷ get "b" ∷ resolve "a" 7 ∷ []

-- The first result counts, and the open future is cancelled.
resolve_then_cancel :
    (cancel_all_futures (run (resolve "a" 8 ∷ []) (run calls new_manager))).0.store
    ≡ resolved 7 ∷ withdrawn ∷ []
unfolding program
resolve_then_cancel = refl

cancel_all_count : (cancel_all_futures (run calls new_manager)).1 ≡ 1
unfolding program
cancel_all_count = refl

futures_tracked_example : IsSound (run calls new_manager)
futures_tracked_example = futures_tracked calls

run_final_example :
    at (run (resolve "a" 8 ∷ cancel "a" ∷ []) (run calls new_manager)).store 0 ≡ some (resolved 7)
unfolding program
run_final_example =
    run_final (resolve "a" 8 ∷ cancel "a" ∷ []) (run calls new_manager) 0 (resolved 7) refl refl

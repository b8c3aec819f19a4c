-- ===== src/Futures/Waiters.antt =====
-- Who waits on the futures of src/async_task_worker/futures.py gets the outcome of the task.
use async_task_worker.Base.{
  ℕ, String, ◌≡◌, false, none, some, arith, length, ◌≢◌, inl, inr, Option-cases,
}
use async_task_worker.Base.Dict
use async_task_worker.Base.Dict.{Set, contains, is_some, keys, has-keys}
use async_task_worker.Futures.{
  Future, open_future, resolved, Manager, at, write, settle, settle_open, get_future,
  complete_from_result,
}
use async_task_worker.Futures.Store.{at-write, at-append, find_open-open_future}
use async_task_worker.Futures.Calls.{get_future_old, get_future_new}

module _ {V : Type 0} where
  -- Asking twice for the future of a task gives the same object and changes nothing more; the
  -- object is open if the task had none before.
  pub get_future_twice :
      (t : String) (m : Manager V)
      → (get_future t (get_future t m).0 ≡ ((get_future t m).0, (get_future t m).1))
        × (Dict.lookup t m.futures ≡ none
            → at (get_future t m).0.store (get_future t m).1 ≡ some open_future)
  get_future_twice t m = elim (Option-cases (Dict.lookup t m.futures)) [
    | inr (b, l) ↦ rw (get_future_old t m b l) (get_future_old t m b l, λ n. cc)
    | inl l ↦ rw (get_future_new t m l) (
      get_future_old t _ (length m.store)
          (ground (arith, Dict.lookup-insert t t (length m.store) m.futures)),
      λ n. ground (arith, at-append m.store (length m.store) open_future),
    )
  ]

  found :
      (t : String) (m : Manager V)
      → Dict.lookup t m.futures ≡ none
      → Dict.lookup t (get_future t m).0.futures ≡ some (get_future t m).1
  found t m l =
      rw (get_future_new t m l) (ground (arith, Dict.lookup-insert t t (length m.store) m.futures))

  settle_open_found :
      (g : Future V) (t : String) (m : Manager V) (a : ℕ)
      → Dict.lookup t m.futures ≡ some a
      → at m.store a ≡ some open_future
      → settle_open g t m
        ≡ (record m { store = write m.store a g; pending_tasks = Dict.delete t m.pending_tasks })
  unfolding settle_open settle
  settle_open_found g t m a l o = rw (find_open-open_future t m a l o, settle_open)

  -- The waiters of a task get its result: after `complete_from_result` the object that
  -- `get_future` had given out for a task without one holds the result, and every other object is
  -- as it was.
  pub complete_resolves :
      (t : String) (v : V) (m : Manager V) (b : ℕ)
      → Dict.lookup t m.futures ≡ none
      → (at (complete_from_result t v (get_future t m).0).store (get_future t m).1
          ≡ some (resolved v))
        × (b ≢ (get_future t m).1
            → at (complete_from_result t v (get_future t m).0).store b
              ≡ at (get_future t m).0.store b)
        × (contains t (complete_from_result t v (get_future t m).0).pending_tasks ≡ false)
  unfolding complete_from_result
  complete_resolves t v m b l =
      let m' = (get_future t m).0 in
      let a = (get_future t m).1 in
      rw (settle_open_found (resolved v) t m' a (found t m l) ((get_future_twice t m).1 l)) (
        ground (arith, at-write m'.store a a (resolved v), (get_future_twice t m).1 l),
        λ n. ground (arith, at-write m'.store a b (resolved v)),
        ground (arith, Dict.lookup-delete t t m'.pending_tasks),
      )

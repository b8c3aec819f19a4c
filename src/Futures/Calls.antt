-- ===== src/Futures/Calls.antt =====
-- Any calls of `TaskFutureManager` in src/async_task_worker/futures.py, one after the other.
use async_task_worker.Base.{
  ℕ, String, ◌≡◌, refl, false, none, some, List, [], ◌∷◌, ◌++◌, arith, length, inl, inr,
  Option-cases,
}
use async_task_worker.Base.Dict
use async_task_worker.Base.Dict.{Set, contains, is_some, keys, has-keys}
use async_task_worker.Futures.{
  Failure, Future, open_future, resolved, raised, withdrawn, is_open, Manager, at, new_manager,
  find_open, settle, settle_open, get_future, set_result, set_exception, cancel_future,
  cancel_all_futures, drop_done, cleanup_completed_futures, collect,
}
use async_task_worker.Futures.Store.{
  at-write, at-append, at-lt, find_open-some, find_open-open_future,
}
use async_task_worker.Futures.Sound.{
  IsSound, new-IsSound, get_future-IsSound, settle-IsSound, collect-IsSound,
}
use async_task_worker.Futures.Outcomes.{cancel_each-Cancels}

-- A call, or the collector's removal of a future that nobody holds.
pub data Call (V : Type 0) : Type 0 where
  get : String → Call V
  resolve : String → V → Call V
  fail : String → Failure → Call V
  cancel : String → Call V
  cancel_all : Call V
  cleanup : Call V
  lose : String → Call V

module _ {V : Type 0} where
  unfoldable pub perform : Call V → Manager V → Manager V
  perform (get t) m = (get_future t m).0
  perform (resolve t v) m = set_result t v m
  perform (fail t e) m = set_exception t e m
  perform (cancel t) m = (cancel_future t m).0
  perform cancel_all m = (cancel_all_futures m).0
  perform cleanup m = cleanup_completed_futures m
  perform (lose t) m = collect t m

  unfoldable pub run : List (Call V) → Manager V → Manager V
  unfolding perform
  run [] m = m
  run (c ∷ cs) m = run cs (perform c m)

  -- The cleanup only takes tasks off the pending ones, and none whose future is open.
  record Sweeps (m m' : Manager V) : Type 0 where
    futures : m'.futures ≡ m.futures
    store : m'.store ≡ m.store
    kept :
        (t : String) (a : ℕ)
        → find_open t m ≡ some a
        → contains t m'.pending_tasks ≡ contains t m.pending_tasks

  drop_done-Sweeps : (ts : List String) (m : Manager V) → Sweeps m (drop_done ts m)
  unfolding drop_done
  drop_done-Sweeps [] m = record { futures = refl; store = refl; kept = λ t a h. refl }
  drop_done-Sweeps (u ∷ ts) m = elim (Option-cases (find_open u m)) [
    | inr (b, h) ↦ rw (h, drop_done) (drop_done-Sweeps ts m)
    | inl h ↦
        rw (h, drop_done)
          (let m' = record m { pending_tasks = Dict.delete u m.pending_tasks } in
            let s = drop_done-Sweeps ts m' in
            record {
              futures = s.futures;
              store = s.store;
              kept = λ t a k. ground (arith, s.kept t a k, Dict.lookup-delete u t m.pending_tasks);
            })
  ]

  cleanup-IsSound : (m : Manager V) → IsSound m → IsSound (cleanup_completed_futures m)
  unfolding cleanup_completed_futures
  cleanup-IsSound m s =
      let w = drop_done-Sweeps (keys m.pending_tasks) m in
      record {
        stored = λ t a l. ground (arith, w.futures, w.store, s.stored t a);
        apart = λ t u a l k. ground (arith, w.futures, s.apart t u a);
        tracked = λ t a l k.
            ground
              (arith, w.futures, w.store, find_open-open_future t m a, w.kept t a, s.tracked t a);
      }

  cancel_all-IsSound : (m : Manager V) → IsSound m → IsSound (cancel_all_futures m).0
  unfolding cancel_all_futures
  cancel_all-IsSound m s =
      let c = cancel_each-Cancels (keys m.pending_tasks) m 0 in
      record {
        stored = λ t a l. ground (arith, c.same, c.withdraws a, s.stored t a);
        apart = λ t u a l k. ground (arith, c.same, s.apart t u a);
        tracked = λ t a l k. absurd (
            ground (
              arith,
              c.same,
              c.closed t a,
              c.withdraws a,
              s.tracked t a,
              has-keys t m.pending_tasks,
            ));
      }

  settle_open-IsSound :
      (g : Future V) (t : String) (m : Manager V)
      → is_open g ≡ false
      → IsSound m
      → IsSound (settle_open g t m)
  unfolding settle_open
  settle_open-IsSound g t m closed s = elim (Option-cases (find_open t m)) [
    | inl h ↦ rw (h, settle_open) s
    | inr (a, h) ↦ rw (h, settle_open) (settle-IsSound g t a m closed (find_open-some t m a h).0 s)
  ]

  settle_open-final :
      (g : Future V) (t : String) (m : Manager V) (a : ℕ) (f : Future V)
      → at m.store a ≡ some f
      → is_open f ≡ false
      → at (settle_open g t m).store a ≡ some f
  unfolding settle_open settle
  settle_open-final g t m a f h k = elim (Option-cases (find_open t m)) [
    | inl l ↦ rw (l, settle_open) h
    | inr (b, l) ↦
        rw (l, settle_open) (ground (arith, at-write m.store b a g, find_open-some t m b l))
  ]

  cancel_future-settle_open :
      (t : String) (m : Manager V) → (cancel_future t m).0 ≡ settle_open withdrawn t m
  unfolding cancel_future settle_open settle
  cancel_future-settle_open t m = elim (Option-cases (find_open t m)) [
    | inl h ↦ rw (h, cancel_future, settle_open)
    | inr (a, h) ↦ rw (h, cancel_future, settle_open)
  ]

  perform-IsSound : (c : Call V) (m : Manager V) → IsSound m → IsSound (perform c m)
  unfolding perform set_result set_exception
  perform-IsSound (get t) m s = get_future-IsSound t m s
  perform-IsSound (resolve t v) m s = settle_open-IsSound (resolved v) t m refl s
  perform-IsSound (fail t e) m s = settle_open-IsSound (raised e) t m refl s
  perform-IsSound (cancel t) m s =
      rw (cancel_future-settle_open t m) (settle_open-IsSound withdrawn t m refl s)
  perform-IsSound cancel_all m s = cancel_all-IsSound m s
  perform-IsSound cleanup m s = cleanup-IsSound m s
  perform-IsSound (lose t) m s = collect-IsSound t m s

  run-IsSound : (cs : List (Call V)) (m : Manager V) → IsSound m → IsSound (run cs m)
  unfolding run
  run-IsSound [] m s = s
  run-IsSound (c ∷ cs) m s = run-IsSound cs (perform c m) (perform-IsSound c m s)

  -- After any calls on a new manager each tracked task has a future of its own, and it is pending
  -- as long as that future is open.
  pub futures_tracked : (cs : List (Call V)) → IsSound (run cs new_manager)
  futures_tracked cs = run-IsSound cs new_manager new-IsSound

  pub get_future_old :
      (t : String) (m : Manager V) (a : ℕ)
      → Dict.lookup t m.futures ≡ some a
      → get_future t m ≡ (m, a)
  unfolding get_future
  get_future_old t m a l = rw (l, get_future)

  pub get_future_new :
      (t : String) (m : Manager V)
      → Dict.lookup t m.futures ≡ none
      → get_future t m ≡ (
        record {
          store = m.store ++ open_future ∷ [];
          futures = Dict.insert t (length m.store) m.futures;
          pending_tasks = Dict.add t m.pending_tasks;
        },
        length m.store,
      )
  unfolding get_future
  get_future_new t m l = rw (l, get_future)

  get_future-final :
      (t : String) (m : Manager V) (a : ℕ) (f : Future V)
      → at m.store a ≡ some f
      → at (get_future t m).0.store a ≡ some f
  get_future-final t m a f h = elim (Option-cases (Dict.lookup t m.futures)) [
    | inr (b, l) ↦ rw (get_future_old t m b l) h
    | inl l ↦
        rw (get_future_new t m l)
          (ground (arith, at-append m.store a open_future, at-lt m.store a h))
  ]

  -- A future that is done keeps its outcome.
  perform-final :
      (c : Call V) (m : Manager V) (a : ℕ) (f : Future V)
      → at m.store a ≡ some f
      → is_open f ≡ false
      → at (perform c m).store a ≡ some f
  unfolding perform set_result set_exception cancel_all_futures collect cleanup_completed_futures
  perform-final (get t) m a f h k = get_future-final t m a f h
  perform-final (resolve t v) m a f h k = settle_open-final (resolved v) t m a f h k
  perform-final (fail t e) m a f h k = settle_open-final (raised e) t m a f h k
  perform-final (cancel t) m a f h k =
      rw (cancel_future-settle_open t m) (settle_open-final withdrawn t m a f h k)
  perform-final cancel_all m a f h k =
      ground (arith, (cancel_each-Cancels (keys m.pending_tasks) m 0).withdraws a)
  perform-final cleanup m a f h k =
      ground (arith, (drop_done-Sweeps (keys m.pending_tasks) m).store)
  perform-final (lose t) m a f h k = h

  -- The first outcome of a future is its only one: no later calls change it.
  pub run_final :
      (cs : List (Call V)) (m : Manager V) (a : ℕ) (f : Future V)
      → at m.store a ≡ some f
      → is_open f ≡ false
      → at (run cs m).store a ≡ some f
  unfolding run
  run_final [] m a f h k = h
  run_final (c ∷ cs) m a f h k = run_final cs (perform c m) a f (perform-final c m a f h k) k

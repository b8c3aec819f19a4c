-- ===== src/Futures/Sound.antt =====
-- The bookkeeping of `TaskFutureManager` in src/async_task_worker/futures.py, under every operation.
use async_task_worker.Base.{
  ℕ, zero, suc, ◌<◌, String, ◌≡◌, true, false, some, List, [], ◌∷◌, arith, length, inl, inr,
  Option-cases,
}
use async_task_worker.Base.Dict
use async_task_worker.Base.Dict.{contains, is_some}
use async_task_worker.Futures.{
  Future, open_future, is_open, Manager, at, new_manager, settle, get_future, collect,
}
use async_task_worker.Futures.Store.{at-write, at-append}

module _ {V : Type 0} where
  -- Each task of the weak dictionary has an object of its own, and is pending while that is open.
  pub record IsSound (m : Manager V) : Type 0 where
    pub stored :
        (t : String) (a : ℕ) → Dict.lookup t m.futures ≡ some a → is_some (at m.store a) ≡ true
    pub apart :
        (t u : String) (a : ℕ)
        → Dict.lookup t m.futures ≡ some a
        → Dict.lookup u m.futures ≡ some a
        → t ≡ u
    pub tracked :
        (t : String) (a : ℕ)
        → Dict.lookup t m.futures ≡ some a
        → at m.store a ≡ some open_future
        → contains t m.pending_tasks ≡ true

  pub new-IsSound : IsSound new_manager
  unfolding Dict.lookup
  new-IsSound = record { stored = λ t a h. cc; apart = λ t u a h k. cc; tracked = λ t a h k. cc }

  pub some-lt : (s : List (Future V)) (a : ℕ) → is_some (at s a) ≡ true → a < length s
  some-lt [] a h = cc
  some-lt (f ∷ fs) zero h = omega arith
  some-lt (f ∷ fs) (suc a) h = omega (arith, some-lt fs a h)

  pub get_future-IsSound : (t : String) (m : Manager V) → IsSound m → IsSound (get_future t m).0
  unfolding get_future
  get_future-IsSound t m s = elim (Option-cases (Dict.lookup t m.futures)) [
    | inr (a, h) ↦ rw (h, get_future) s
    | inl h ↦
        rw (h, get_future)
          (record {
            stored = λ u a k. ground (
              arith,
              Dict.lookup-insert t u (length m.store) m.futures,
              at-append m.store a open_future,
              s.stored u a,
            );
            apart = λ u w a k l. ground (
              arith,
              Dict.lookup-insert t u (length m.store) m.futures,
              Dict.lookup-insert t w (length m.store) m.futures,
              s.stored u a,
              s.stored w a,
              some-lt m.store a,
              s.apart u w a,
            );
            tracked = λ u a k l. ground (
              arith,
              Dict.lookup-insert t u (length m.store) m.futures,
              Dict.lookup-insert t u tt m.pending_tasks,
              at-append m.store a open_future,
              s.stored u a,
              some-lt m.store a,
              s.tracked u a,
            );
          })
  ]

  pub settle-IsSound :
      (g : Future V) (t : String) (a : ℕ) (m : Manager V)
      → is_open g ≡ false
      → Dict.lookup t m.futures ≡ some a
      → IsSound m
      → IsSound (settle g t a m)
  unfolding settle
  settle-IsSound g t a m closed found s = record {
    stored = λ u b k. ground (arith, s.stored u b, at-write m.store a b g);
    apart = s.apart;
    tracked = λ u b k l.
        ground
          (arith, s.tracked u b, at-write m.store a b g, Dict.lookup-delete t u m.pending_tasks);
  }

  pub collect-IsSound : (t : String) (m : Manager V) → IsSound m → IsSound (collect t m)
  unfolding collect
  collect-IsSound t m s = record {
    stored = λ u a k. ground (arith, s.stored u a, Dict.lookup-delete t u m.futures);
    apart = λ u w a k l.
        ground (
          arith,
          s.apart u w a,
          Dict.lookup-delete t u m.futures,
          Dict.lookup-delete t w m.futures,
        );
    tracked = λ u a k l. ground (arith, s.tracked u a, Dict.lookup-delete t u m.futures);
  }

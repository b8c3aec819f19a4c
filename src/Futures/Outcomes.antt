-- ===== src/Futures/Outcomes.antt =====
-- What becomes of a future under the operations of src/async_task_worker/futures.py.
use async_task_worker.Base.{
  ℕ, ◌+◌, String, ◌≡◌, refl, true, some, List, [], ◌∷◌, arith, ◌⊎◌, inl, inr, Option-cases, ◌≢◌,
}
use async_task_worker.Base.Dict
use async_task_worker.Base.Dict.{contains, keys, has, has-keys}
use async_task_worker.Futures.{
  Future, open_future, withdrawn, Manager, at, write, find_open, cancel_each, cancel_all_futures,
}
use async_task_worker.Futures.Store.{at-write, find_open-some, find_open-open_future}
use async_task_worker.Futures.Sound.{IsSound}

module _ {V : Type 0} where
  -- The store after some open futures were cancelled, and nothing else was touched.
  abbrev pub Withdraws : List (Future V) → List (Future V) → Type 0
  Withdraws s s' =
      (a : ℕ) → (at s' a ≡ at s a) ⊎ (at s a ≡ some open_future) × (at s' a ≡ some withdrawn)

  write-Withdraws :
      (s : List (Future V)) (a : ℕ) → at s a ≡ some open_future → Withdraws s (write s a withdrawn)
  write-Withdraws s a h b = ground (arith, at-write s a b withdrawn)

  Withdraws-trans :
      (s s' s'' : List (Future V)) → Withdraws s s' → Withdraws s' s'' → Withdraws s s''
  Withdraws-trans s s' s'' h k a = ground (arith, h a, k a)

  -- What the loop of `cancel_all_futures` does to the manager.
  pub record Cancels (ts : List String) (m m' : Manager V) : Type 0 where
    pub same : m'.futures ≡ m.futures
    pub withdraws : Withdraws m.store m'.store
    pub closed :
        (t : String) (a : ℕ)
        → has t ts ≡ true
        → Dict.lookup t m.futures ≡ some a
        → at m'.store a ≢ some open_future

  pub cancel_each-Cancels :
      (ts : List String) (m : Manager V) (n : ℕ) → Cancels ts m (cancel_each ts m n).0
  unfolding cancel_each
  cancel_each-Cancels [] m n = record {
    same = refl;
    withdraws = λ a. inl refl;
    closed = λ t a h k. cc;
  }
  cancel_each-Cancels (t ∷ ts) m n = elim (Option-cases (find_open t m)) [
    | inl h ↦
        rw (h, cancel_each)
          (let c = cancel_each-Cancels ts m n in
            record {
              same = c.same;
              withdraws = c.withdraws;
              closed = λ u a k l e.
                  ground (arith, c.closed u a, find_open-open_future t m a, c.withdraws a);
            })
    | inr (b, h) ↦
        rw (h, cancel_each)
          (let m' = record m { store = write m.store b withdrawn } in
            let c = cancel_each-Cancels ts m' (n + 1) in
            let f = find_open-some t m b h in
            record {
              same = c.same;
              withdraws =
                  Withdraws-trans m.store m'.store _ (write-Withdraws m.store b f.1) c.withdraws;
              closed = λ u a k l e.
                  ground (arith, c.closed u a, f, c.withdraws a, at-write m.store b a withdrawn);
            })
  ]

  -- `cancel_all_futures` cancels every open future that a task still has, leaves every future that
  -- is done as it is, and leaves no task pending.
  pub cancel_all_closes :
      (m : Manager V) (t : String) (a : ℕ)
      → IsSound m
      → Dict.lookup t m.futures ≡ some a
      → (at m.store a ≡ some open_future → at (cancel_all_futures m).0.store a ≡ some withdrawn)
        × (at m.store a ≢ some open_future → at (cancel_all_futures m).0.store a ≡ at m.store a)
        × ((cancel_all_futures m).0.pending_tasks ≡ [])
  unfolding cancel_all_futures
  cancel_all_closes m t a s l =
      let c = cancel_each-Cancels (keys m.pending_tasks) m 0 in
      (
        λ e. ground (arith, c.withdraws a, c.closed t a, has-keys t m.pending_tasks, s.tracked t a),
        λ e. ground (arith, c.withdraws a),
        refl,
      )

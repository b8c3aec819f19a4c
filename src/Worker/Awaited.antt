-- ===== src/Worker/Awaited.antt =====
-- src/async_task_worker/core.py: what `wait_for_tasks` and `wait_for_any_task` answer.
use async_task_worker.Base.{
  ℕ, suc, String, ◌≡◌, ◌≢◌, refl, sym, ap, ◌∙◌, true, Option, none, some, List, [], ◌∷◌, ◌++◌, map,
  All, length, length-append, arith, Option-cases, inl, inr,
}
use mathlib.Core.List.{append_assoc}
use mathlib.Core.Path.{subst}
use async_task_worker.Base.Dict
use async_task_worker.Base.Dict.{contains, has}
use async_task_worker.Futures.{Future, resolved}
use async_task_worker.Worker.{Worker}
use async_task_worker.Worker.Waits.{
  Waited, results, set, completed_result, await_each, sort_out, get_futures, wait_for_rest,
  wait_for_tasks, unknown_task,
}
use async_task_worker.Worker.Fetched.{
  set-middle, await_each-nil, await_each-step, Fetched, Known, get_futures-Known, expected,
  Resolved, Resolved-tail, expected-completed, expected-pending, sort_out-nil, sort_out-completed,
  sort_out-pending,
}

module _ {V F A : Type 0} (null : V) where
  Fetched-nil : (w' : Worker V F A) (fs : List (ℕ × ℕ)) → Fetched null w' [] fs → fs ≡ []
  Fetched-nil w' [] f = refl
  Fetched-nil w' (x ∷ fs) f = absurd f

  Fetched-cons :
      (w' : Worker V F A) (i : ℕ) (t : String) (ps : List (ℕ × String)) (fs : List (ℕ × ℕ))
      → Fetched null w' ((i, t) ∷ ps) fs
      → (a : ℕ) × (rest : List (ℕ × ℕ)) × (fs ≡ (i, a) ∷ rest)
        × (Dict.lookup t w'.task_futures ≡ some a)
        × Fetched null w' ps rest
  Fetched-cons w' i t ps [] f = absurd f
  Fetched-cons w' i t ps ((j, a) ∷ fs) (e, found, rest) =
      (a, fs, ap (λ (k : ℕ). (k, a) ∷ fs) (sym e), found, rest)

  await_each-results :
      (timeout : Option ℕ) (w w' : Worker V F A) (future : ℕ → Option (Future V))
      (value : String → V) (ids : List String) (i : ℕ) (before rs : List V) (ps : List (ℕ × String))
      (fs : List (ℕ × ℕ))
      → sort_out null ids i w ≡ (rs, ps)
      → length before ≡ i
      → Fetched null w' ps fs
      → Resolved null ids w w' future value
      → await_each timeout future fs (before ++ rs)
        ≡ results (before ++ map (expected null w value) ids)
  await_each-results timeout w w' future value [] i before rs ps fs h n f r =
      let h' = sort_out-nil null i w ∙ h in
      let none_left =
        Fetched-nil w' fs (subst (λ q. Fetched null w' q fs) (sym (ap (λ p. p.1) h')) f) in
      rw (← ap (λ p. p.0) h', none_left) (await_each-nil timeout future (before ++ []))
  await_each-results timeout w w' future value (t ∷ ts) i before rs ps fs h n f r =
      let rs' = (sort_out null ts (suc i) w).0 in
      let ps' = (sort_out null ts (suc i) w).1 in
      elim (Option-cases (completed_result null (Dict.lookup t w.tasks))) [
        | inl pending ↦
            let e = sym (sort_out-pending null t ts i w pending) ∙ h in
            let (a, rest, same, found, fetched) =
              Fetched-cons w' i t ps' fs
                (subst (λ q. Fetched null w' q fs) (sym (ap (λ p. p.1) e)) f) in
            let there : future a ≡ some (resolved (value t)) =
              ground (arith, r t, found, pending) in
            let put : set (before ++ null ∷ rs') i (value t) ≡ before ++ value t ∷ rs' =
              ap (λ k. set (before ++ null ∷ rs') k (value t)) (sym n)
              ∙ set-middle before rs' null (value t) in
            let ih =
              await_each-results timeout w w' future value ts (suc i) (before ++ value t ∷ []) rs'
                ps' rest refl (length-append before (value t ∷ []) ∙ omega arith) fetched
                (Resolved-tail null t ts w w' future value r) in
            rw (← ap (λ p. p.0) e, same)
              (await_each-step timeout future i a rest (value t) (before ++ null ∷ rs') there
                ∙ ap (await_each timeout future rest)
                    (put ∙ sym (append_assoc before (value t ∷ []) rs'))
                ∙ ih
                ∙ ap results (append_assoc before (value t ∷ []) (map (expected null w value) ts))
                ∙ ap (λ x. results (before ++ x ∷ map (expected null w value) ts))
                    (sym (expected-pending null w value t pending)))
        | inr (v, there) ↦
            let e = sym (sort_out-completed null t ts i w v there) ∙ h in
            let ih =
              await_each-results timeout w w' future value ts (suc i) (before ++ v ∷ []) rs' ps' fs
                refl (length-append before (v ∷ []) ∙ omega arith)
                (subst (λ q. Fetched null w' q fs) (sym (ap (λ p. p.1) e)) f)
                (Resolved-tail null t ts w w' future value r) in
            rw (← ap (λ p. p.0) e) (
              ap (await_each timeout future fs) (sym (append_assoc before (v ∷ []) rs'))
              ∙ ih
              ∙ ap results (append_assoc before (v ∷ []) (map (expected null w value) ts))
              ∙ ap (λ x. results (before ++ x ∷ map (expected null w value) ts))
                  (sym (expected-completed null w value t v there)))
      ]

  rest-results :
      (timeout : Option ℕ) (later : Worker V F A → ℕ → Option (Future V)) (rs : List V)
      (ps : List (ℕ × String)) (w w' : Worker V F A) (fs : List (ℕ × ℕ))
      → get_futures null ps w ≡ (w', some fs)
      → wait_for_rest null timeout later rs ps w ≡ (w', await_each timeout (later w') fs rs)
  unfolding wait_for_rest
  rest-results timeout later rs ps w w' fs h =
      let finish : Worker V F A × Option (List (ℕ × ℕ)) → Worker V F A × Waited (List V) = λ r.
        (r.0, elim r.1 [ none ↦ unknown_task | some gs ↦ await_each timeout (later r.0) gs rs ]) in
      ap finish h

  Known-sort_out :
      (ids : List String) (i : ℕ) (w : Worker V F A)
      → All (λ t. contains t w.tasks ≡ true) ids
      → Known null (sort_out null ids i w).1 w
  Known-sort_out [] i w k = subst (λ r. Known null r.1 w) (sort_out-nil null i w) tt
  Known-sort_out (t ∷ ts) i w (k, ks) =
      elim (Option-cases (completed_result null (Dict.lookup t w.tasks))) [
        | inl h ↦
            subst (λ r. Known null r.1 w) (sym (sort_out-pending null t ts i w h))
              (k, Known-sort_out ts (suc i) w ks)
        | inr (v, h) ↦
            subst (λ r. Known null r.1 w) (sym (sort_out-completed null t ts i w v h))
              (Known-sort_out ts (suc i) w ks)
      ]

  early_return :
      (timeout : Option ℕ) (later : Worker V F A → ℕ → Option (Future V)) (w : Worker V F A)
      (rs : List V) (ps : List (ℕ × String))
      → ◌≡◌ {A = Worker V F A × Waited (List V)}
          (elim ps [
            | [] ↦ (w, results rs)
            | q ∷ qs ↦ wait_for_rest null timeout later rs (q ∷ qs) w
          ])
          (wait_for_rest null timeout later rs ps w)
  unfolding wait_for_rest get_futures await_each
  early_return timeout later w rs [] = refl
  early_return timeout later w rs (q ∷ qs) = refl

  wait_for_tasks-rest :
      (timeout : Option ℕ) (later : Worker V F A → ℕ → Option (Future V)) (ids : List String)
      (w : Worker V F A)
      → ids ≢ []
      → (wait_for_tasks null timeout later ids w
          ≡ wait_for_rest null timeout later (sort_out null ids 0 w).0 (sort_out null ids 0 w).1 w)
  unfolding wait_for_tasks
  wait_for_tasks-rest timeout later [] w h = absurd (h refl)
  wait_for_tasks-rest timeout later (t ∷ ts) w h =
      early_return timeout later w (sort_out null (t ∷ ts) 0 w).0 (sort_out null (t ∷ ts) 0 w).1

  -- The results, for ids that are not all completed or not.
  wait_for_tasks-some :
      (timeout : Option ℕ) (later : Worker V F A → ℕ → Option (Future V)) (ids : List String)
      (value : String → V) (w : Worker V F A)
      → ids ≢ []
      → All (λ t. contains t w.tasks ≡ true) ids
      → Resolved null ids w
          (wait_for_tasks null timeout later ids w).0
          (later (wait_for_tasks null timeout later ids w).0)
          value
      → (wait_for_tasks null timeout later ids w).1 ≡ results (map (expected null w value) ids)
  wait_for_tasks-some timeout later ids value w full known r =
      let rs = (sort_out null ids 0 w).0 in
      let ps = (sort_out null ids 0 w).1 in
      let (w', fs, got, fetched, keeps) =
        get_futures-Known null ps w (Known-sort_out ids 0 w known) in
      let ran : wait_for_tasks null timeout later ids w
          ≡ (w', await_each timeout (later w') fs rs) =
        wait_for_tasks-rest timeout later ids w full
        ∙ rest-results timeout later rs ps w w' fs got in
      ap (λ q. q.1) ran
      ∙ await_each-results timeout w w' (later w') value ids 0 [] rs ps fs refl refl fetched
          (subst (λ u. Resolved null ids w u (later u) value) (ap (λ q. q.0) ran) r)

  wait_for_tasks-empty :
      (timeout : Option ℕ) (later : Worker V F A → ℕ → Option (Future V)) (w : Worker V F A)
      → wait_for_tasks null timeout later [] w ≡ (w, results [])
  unfolding wait_for_tasks
  wait_for_tasks-empty timeout later w = refl

  -- Where every task is known, `wait_for_tasks` answers the results in the order of the ids: of a
  -- task that is completed the stored one, and of any other the value that its future holds when it
  -- is awaited.
  pub wait_for_tasks-results :
      (timeout : Option ℕ) (later : Worker V F A → ℕ → Option (Future V)) (ids : List String)
      (value : String → V) (w : Worker V F A)
      → All (λ t. contains t w.tasks ≡ true) ids
      → Resolved null ids w
          (wait_for_tasks null timeout later ids w).0
          (later (wait_for_tasks null timeout later ids w).0)
          value
      → (wait_for_tasks null timeout later ids w).1 ≡ results (map (expected null w value) ids)
  wait_for_tasks-results timeout later [] value w known r =
      ap (λ q. q.1) (wait_for_tasks-empty timeout later w)
  wait_for_tasks-results timeout later (t ∷ ts) value w known r =
      wait_for_tasks-some timeout later (t ∷ ts) value w (λ e. cc) known r

-- ===== src/Executor/Outcomes.antt =====
-- src/async_task_worker/executor.py: what a run of `execute_task` reports and what it stores.
use Prim.Native.String.{◌++◌}
use async_task_worker.Base.{
  String, ◌≡◌, refl, Bool, true, false, ◌&&◌, Option, none, some, arith, Option-cases, sym,
  Bool-cases, inl, inr, ◌⊎◌, ◌∙◌,
}
use mathlib.Core.Path.{subst}
use async_task_worker.Exceptions.{TaskError, Raised}
use async_task_worker.Executor.{
  Looked, hit, miss, lookup_raised, CacheManager, Ran, returned, timed_out, was_cancelled, threw,
  Outcome, done, not_coroutine, call_raised, fails, Call, caching, look_up, run_body, await_body,
  execute_task,
}

Ran-cases :
    {V : Type 0} (r : Ran V)
    → ((v : V) × (r ≡ returned v))
      ⊎ (r ≡ timed_out)
      ⊎ (r ≡ was_cancelled)
      ⊎ ((e : Raised) × (r ≡ threw e))
Ran-cases (returned v) = inl (v, refl)
Ran-cases timed_out = inr (inl refl)
Ran-cases was_cancelled = inr (inr (inl refl))
Ran-cases (threw e) = inr (inr (inr (e, refl)))

Looked-cases :
    {V : Type 0} (r : Looked V) → ((v : V) × (r ≡ hit v)) ⊎ (r ≡ miss) ⊎ (r ≡ lookup_raised)
Looked-cases (hit v) = inl (v, refl)
Looked-cases miss = inr (inl refl)
Looked-cases lookup_raised = inr (inr refl)

module _ {C K V S : Type 0} (manager : Option (CacheManager C K V))
    (on_complete : String → V → Bool → S → S) (body : S → S × Ran V) where
  -- What the caller sees of a call that began with the cache `c` and the state `s`.
  abbrev pub Reports : String → Call K → C → S → (C × S) × Outcome V → Type 0
  Reports t call c s ((c', s'), done v) =
      (call.is_coroutine ≡ true)
      × (((call.use_cache && caching manager c) ≡ true)
            × ((look_up manager call.key c).1 ≡ hit v)
            × (s' ≡ on_complete t v true s)
          ⊎ (call.bind_error ≡ none)
            × ((body s).1 ≡ returned v)
            × (s' ≡ on_complete t v false (body s).0))
  Reports t call c s ((c', s'), not_coroutine message) =
      (call.is_coroutine ≡ false) × (c' ≡ c) × (s' ≡ s)
  Reports t call c s ((c', s'), call_raised message) =
      (call.is_coroutine ≡ true) × (call.bind_error ≡ some message) × (s' ≡ s)
  Reports t call c s ((c', s'), fails e) =
      (call.is_coroutine ≡ true)
      × (call.bind_error ≡ none)
      × (s' ≡ (body s).0)
      × (e.task_id ≡ some t)

  run_body-Reports :
      (t : String) (call : Call K) (use_cache : Bool) (c c0 : C) (s : S)
      → call.is_coroutine ≡ true
      → Reports t call c0 s (run_body manager on_complete body t call use_cache c s)
  unfolding run_body await_body
  run_body-Reports t call use_cache c c0 s k = elim (Option-cases call.bind_error) [
    | inr (message, b) ↦ rw (run_body, b) (k, refl, refl)
    | inl b ↦ elim (Ran-cases (body s).1) [
      | inl (v, e) ↦ rw (run_body, b, await_body, e) (k, inr (refl, e, refl))
      | inr (inl e) ↦ rw (run_body, b, await_body, e) (k, refl, refl, refl)
      | inr (inr (inl e)) ↦ rw (run_body, b, await_body, e) (k, refl, refl, refl)
      | inr (inr (inr (r, e))) ↦ rw (run_body, b, await_body, e) (k, refl, refl, refl)
    ]
  ]

  execute_task-refused :
      (t : String) (call : Call K) (c : C) (s : S)
      → call.is_coroutine ≡ false
      → (message : String) × (execute_task manager on_complete body t call c s
          ≡ ((c, s), not_coroutine message))
  unfolding execute_task
  execute_task-refused t call c s h = (
    "Task " ++ t ++ ": Function " ++ call.function_name ++ " is not a coroutine function",
    ground (arith, h),
  )

  execute_task-uncached :
      (t : String) (call : Call K) (c : C) (s : S)
      → call.is_coroutine ≡ true
      → (call.use_cache && caching manager c) ≡ false
      → execute_task manager on_complete body t call c s
        ≡ run_body manager on_complete body t call call.use_cache c s
  unfolding execute_task
  execute_task-uncached t call c s h k = rw (execute_task, h, k)

  -- What follows the lookup.
  abbrev after_lookup : String → Call K → S → C → Looked V → (C × S) × Outcome V
  after_lookup t call s c1 (hit v) = ((c1, on_complete t v true s), done v)
  after_lookup t call s c1 miss = run_body manager on_complete body t call true c1 s
  after_lookup t call s c1 lookup_raised = run_body manager on_complete body t call false c1 s

  execute_task-looked :
      (t : String) (call : Call K) (c : C) (s : S)
      → call.is_coroutine ≡ true
      → (call.use_cache && caching manager c) ≡ true
      → execute_task manager on_complete body t call c s
        ≡ after_lookup t call s (look_up manager call.key c).0 (look_up manager call.key c).1
  unfolding execute_task
  execute_task-looked t call c s h k = rw (execute_task, h, k)

  -- A call that returns a value is one of a coroutine function, and has reported the value to the
  -- completion callback, once and as its last act: either the value that the enabled cache answered,
  -- without running the body, or the value that the body returned. A function that is no coroutine
  -- leaves everything as it was. A call whose arguments the function does not take raises their
  -- exception without running the body or the callback. A call that fails otherwise has run the body
  -- once, has not called the callback, and names its task in the error.
  pub outcome_reported :
      (t : String) (call : Call K) (c : C) (s : S)
      → Reports t call c s (execute_task manager on_complete body t call c s)
  outcome_reported t call c s = elim (Bool-cases call.is_coroutine) [
    | inr h ↦
        let (message, e) = execute_task-refused t call c s h in
        subst (Reports t call c s) (sym e) (h, refl, refl)
    | inl h ↦ elim (Bool-cases (call.use_cache && caching manager c)) [
      | inr k ↦
          subst (Reports t call c s) (sym (execute_task-uncached t call c s h k))
            (run_body-Reports t call call.use_cache c c s h)
      | inl k ↦
          let c1 = (look_up manager call.key c).0 in
          subst (Reports t call c s) (sym (execute_task-looked t call c s h k))
            (elim (Looked-cases (look_up manager call.key c).1) [
              | inl (v, e) ↦
                  subst (λ l. Reports t call c s (after_lookup t call s c1 l)) (sym e)
                    (h, inl (k, e, refl))
              | inr (inl e) ↦
                  subst (λ l. Reports t call c s (after_lookup t call s c1 l)) (sym e)
                    (run_body-Reports t call true c1 c s h)
              | inr (inr e) ↦
                  subst (λ l. Reports t call c s (after_lookup t call s c1 l)) (sym e)
                    (run_body-Reports t call false c1 c s h)
            ])
    ]
  ]

  -- A call that fails stores nothing: the cache is as the lookup left it, or untouched where there
  -- was none.
  pub failure_not_cached :
      (t : String) (call : Call K) (c : C) (s : S) (e : TaskError)
      → (execute_task manager on_complete body t call c s).1 ≡ fails e
      → ((execute_task manager on_complete body t call c s).0.0 ≡ c)
        ⊎ ((execute_task manager on_complete body t call c s).0.0 ≡ (look_up manager call.key c).0)
  unfolding execute_task run_body await_body
  failure_not_cached t call c s e h = ground (arith, h)

module _ {C K V S : Type 0} (m : CacheManager C K V) (on_complete : String → V → Bool → S → S)
    (body : S → S × Ran V) where
  pub execute_task-hit :
      (t : String) (call : Call K) (c : C) (s : S) (v : V)
      → call.is_coroutine ≡ true
      → call.use_cache ≡ true
      → m.enabled c ≡ true
      → (m.get call.key c).1 ≡ hit v
      → execute_task (some m) on_complete body t call c s
        ≡ (((m.get call.key c).0, on_complete t v true s), done v)
  unfolding execute_task
  execute_task-hit t call c s v hc hu he hl = ground (arith, hc, hu, he, hl)

  execute_task-miss :
      (t : String) (call : Call K) (c : C) (s : S) (v : V)
      → call.is_coroutine ≡ true
      → call.use_cache ≡ true
      → call.bind_error ≡ none
      → m.enabled c ≡ true
      → (m.get call.key c).1 ≡ miss
      → m.enabled (m.get call.key c).0 ≡ true
      → (body s).1 ≡ returned v
      → execute_task (some m) on_complete body t call c s ≡ (
        (m.set call.key v call.cache_ttl (m.get call.key c).0, on_complete t v false (body s).0),
        done v,
      )
  unfolding execute_task run_body await_body
  execute_task-miss t call c s v hc hu hn he hl hg hb = ground (arith, hc, hu, hn, he, hl, hg, hb)

  -- With a cache that is on and that gives back what was stored in it, the second of two equal calls
  -- with caching answers the value that the first one got, without running the body.
  pub execute_twice :
      (t u : String) (call : Call K) (c : C) (s : S) (v : V)
      → call.is_coroutine ≡ true
      → call.use_cache ≡ true
      → call.bind_error ≡ none
      → m.enabled c ≡ true
      → (m.get call.key c).1 ≡ miss
      → (body s).1 ≡ returned v
      → ((x : C) → m.enabled (m.get call.key x).0 ≡ m.enabled x)
      → ((x : C) → m.enabled (m.set call.key v call.cache_ttl x) ≡ m.enabled x)
      → ((x : C) → (m.get call.key (m.set call.key v call.cache_ttl x)).1 ≡ hit v)
      → let ((c1, s1), _) = execute_task (some m) on_complete body t call c s in
        ((execute_task (some m) on_complete body u call c1 s1).1 ≡ done v)
        × ((execute_task (some m) on_complete body u call c1 s1).0.1 ≡ on_complete u v true s1)
  execute_twice t u call c s v hc hu hn he hl hb ge se gs =
      let c1 = (m.get call.key c).0 in
      let on : m.enabled (m.set call.key v call.cache_ttl c1) ≡ true = se c1 ∙ ge c ∙ he in
      rw
        (
          execute_task-miss t call c s v hc hu hn he hl (ge c ∙ he) hb,
          execute_task-hit u call _ (on_complete t v false (body s).0) v hc hu on (gs c1),
        )
        (refl, refl)

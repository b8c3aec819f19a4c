-- ===== src/SseClient/Received.antt =====
-- src/async_events/sse_client.py: what the waits for events answer.
use async_task_worker.Base.{
  String, ◌≡◌, ◌≢◌, refl, sym, ap, ◌∙◌, Option, none, some, List, [], ◌∷◌, ◌++◌, str_dec, ite,
  if_pos, if_neg, arith, Option-cases, inl, inr,
}
use mathlib.Core.Path.{subst}
use mathlib.Core.List.{append_assoc, append-nil}
use async_task_worker.SseClient.{Event, Collected, fresh, read_field, read_lines, process_event}
use async_task_worker.SseClient.Client.{
  process, process_lines, Client, new_client, find_event, receive_event, receive_all, get_event,
  test_event, wait_loop, wait_for_event,
}
use async_task_worker.SseClient.Kept.{
  Call, receives, gets, waits, run, Backed, Kept, receive_event-Backed, receive_all-Kept,
  receive_all-Backed, get_event-Got,
}

module _ {J : Type 0} where
  -- What `wait_for_event` must answer.
  abbrev pub IsFirst : String → Client J × Option (Event J) → Type 0
  IsFirst t (c, some e) = find_event t c.events ≡ some e
  IsFirst t (c, none) = find_event t c.events ≡ find_event t c.event_queue

  find-cons_other :
      (t : String) (e : Event J) (rest : List (Event J))
      → e.event ≢ t
      → find_event t (e ∷ rest) ≡ find_event t rest
  unfolding find_event
  find-cons_other t e rest d = if_neg (str_dec e.event t) d (some e) (find_event t rest)

  find-cons_same :
      (t : String) (e : Event J) (rest : List (Event J))
      → e.event ≡ t
      → find_event t (e ∷ rest) ≡ some e
  unfolding find_event
  find-cons_same t e rest d = if_pos (str_dec e.event t) d (some e) (find_event t rest)

  wait_loop-IsFirst :
      (t : String) (arrivals : List (List (Event J))) (c : Client J)
      → Kept t c
      → IsFirst t (wait_loop t arrivals c)
  unfolding wait_loop test_event
  wait_loop-IsFirst t [] c k = k
  wait_loop-IsFirst t (es ∷ arrivals) c k =
      let c1 = receive_all es c in
      let k1 = receive_all-Kept t es c k in
      elim (get_event-Got c1) [
        | inl (h, g) ↦
            subst (λ a. IsFirst t (test_event (wait_loop t arrivals) t a)) (sym g)
              (wait_loop-IsFirst t arrivals c1 k1)
        | inr (e, rest, h, g) ↦
            let c2 = record c1 { event_queue = rest } in
            subst (λ a. IsFirst t (test_event (wait_loop t arrivals) t a)) (sym g)
              (elim (str_dec e.event t) [
                | yes d ↦
                    subst (IsFirst t)
                      (sym (if_pos (str_dec e.event t) d (c2, some e) (wait_loop t arrivals c2)))
                      (k1 ∙ ap (find_event t) h ∙ find-cons_same t e rest d)
                | no d ↦
                    subst (IsFirst t)
                      (sym (if_neg (str_dec e.event t) d (c2, some e) (wait_loop t arrivals c2)))
                      (wait_loop-IsFirst t arrivals c2
                        (k1 ∙ ap (find_event t) h ∙ find-cons_other t e rest d))
              ])
      ]

  get_event-Backed : (c : Client J) → Backed c → Backed (get_event c).0
  unfolding find_event
  get_event-Backed c b = elim (get_event-Got c) [
    | inl (h, g) ↦ subst (λ a. Backed a.0) (sym g) b
    | inr (e, rest, h, g) ↦
        subst (λ a. Backed a.0) (sym g) (λ t n. ground (arith, sym (ap (find_event t) h) ∙ b t n))
  ]

  test_event-Backed :
      (again : Client J → Client J × Option (Event J)) (t : String) (c : Client J)
      (e : Option (Event J))
      → ((d : Client J) → Backed d → Backed (again d).0)
      → Backed c
      → Backed (test_event again t (c, e)).0
  unfolding test_event
  test_event-Backed again t c none keeps b = keeps c b
  test_event-Backed again t c (some e) keeps b = elim (str_dec e.event t) [
    | yes d ↦
        subst (λ (a : Client J × Option (Event J)). Backed a.0)
          (sym (if_pos (str_dec e.event t) d (c, some e) (again c))) b
    | no d ↦
        subst (λ (a : Client J × Option (Event J)). Backed a.0)
          (sym (if_neg (str_dec e.event t) d (c, some e) (again c))) (keeps c b)
  ]

  wait_loop-Backed :
      (t : String) (arrivals : List (List (Event J))) (c : Client J)
      → Backed c
      → Backed (wait_loop t arrivals c).0
  unfolding wait_loop
  wait_loop-Backed t [] c b = b
  wait_loop-Backed t (es ∷ arrivals) c b =
      let c1 = receive_all es c in
      test_event-Backed (wait_loop t arrivals) t (get_event c1).0 (get_event c1).1
        (wait_loop-Backed t arrivals) (get_event-Backed c1 (receive_all-Backed es c b))

  wait_for_event-found :
      (t : String) (arrivals : List (List (Event J))) (c : Client J) (e : Event J)
      → find_event t c.events ≡ some e
      → wait_for_event t arrivals c ≡ (c, some e)
  unfolding wait_for_event
  wait_for_event-found t arrivals c e h = rw (h, wait_for_event)

  wait_for_event-loop :
      (t : String) (arrivals : List (List (Event J))) (c : Client J)
      → find_event t c.events ≡ none
      → wait_for_event t arrivals c ≡ wait_loop t arrivals c
  unfolding wait_for_event
  wait_for_event-loop t arrivals c h = rw (h, wait_for_event)

  wait_for_event-Backed :
      (t : String) (arrivals : List (List (Event J))) (c : Client J)
      → Backed c
      → Backed (wait_for_event t arrivals c).0
  wait_for_event-Backed t arrivals c b = elim (Option-cases (find_event t c.events)) [
    | inl h ↦
        subst (λ a. Backed a.0) (sym (wait_for_event-loop t arrivals c h))
          (wait_loop-Backed t arrivals c b)
    | inr (e, h) ↦ subst (λ a. Backed a.0) (sym (wait_for_event-found t arrivals c e h)) b
  ]

  run-Backed : (calls : List (Call J)) (c : Client J) → Backed c → Backed (run calls c)
  run-Backed [] c b = b
  run-Backed (receives e ∷ cs) c b = run-Backed cs (receive_event e c) (receive_event-Backed e c b)
  run-Backed (gets ∷ cs) c b = run-Backed cs (get_event c).0 (get_event-Backed c b)
  run-Backed (waits t arrivals ∷ cs) c b =
      run-Backed cs (wait_for_event t arrivals c).0 (wait_for_event-Backed t arrivals c b)

  -- Whatever events a new client received, and whatever other waits took from its queue before: a
  -- `wait_for_event` that answers an event answers the first one with the type among all that were
  -- received until then; and where its time is up, no event with the type was received, or the first
  -- one is still in the queue.
  pub wait_for_event-IsFirst :
      (calls : List (Call J)) (t : String) (arrivals : List (List (Event J)))
      → IsFirst t (wait_for_event t arrivals (run calls new_client))
  wait_for_event-IsFirst calls t arrivals =
      let c = run calls new_client in
      let b = run-Backed calls new_client (λ u h. h) in
      elim (Option-cases (find_event t c.events)) [
        | inl h ↦
            subst (IsFirst t) (sym (wait_for_event-loop t arrivals c h))
              (wait_loop-IsFirst t arrivals c (h ∙ sym (b t h)))
        | inr (e, h) ↦ subst (IsFirst t) (sym (wait_for_event-found t arrivals c e h)) h
      ]

-- What holds of both branches of two tests holds of the tests.
ite_both :
    {P X Y : Type 0} (R : X → Y → Type 0) (d : Dec P) (a b : X) (a' b' : Y)
    → R a a'
    → R b b'
    → R (ite d a b) (ite d a' b')
ite_both R (yes _) a b a' b' r s = r
ite_both R (no _) a b a' b' r s = s

module _ {J : Type 0} (loads : String → Option J) where
  process-events :
      (c : Collected) (client : Client J) (later : List (Event J))
      → (process loads c client).events ++ later ≡ client.events ++ process_event loads c later
  unfolding process process_event receive_event
  process-events c client later = elim (Option-cases (loads c.event_data)) [
    | inl h ↦ rw (h, process, process_event) refl
    | inr (d, h) ↦ rw (h, process, process_event) (append_assoc client.events _ later)
  ]

  -- The loop over the lines adds the events of the lines to those that were received before.
  pub process_lines-events :
      (lines : List String) (c : Collected) (client : Client J)
      → (process_lines loads lines c client).events ≡ client.events ++ read_lines loads lines c
  unfolding process_lines read_lines
  process_lines-events [] c client = sym (append-nil client.events)
  process_lines-events (line ∷ lines) c client =
      let Adds : Client J → List (Event J) → Type 0 = λ d es. d.events ≡ client.events ++ es in
      ite_both Adds (str_dec line "") _ _ _ _
        (ite_both Adds (str_dec c.event_data "") _ _ _ _ (process_lines-events lines c client) (
          process_lines-events lines fresh (process loads c client)
          ∙ process-events c client (read_lines loads lines fresh)))
        (process_lines-events lines (read_field line c) client)

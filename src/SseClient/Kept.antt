-- ===== src/SseClient/Kept.antt =====
-- src/async_events/sse_client.py: the events that were received and are in the queue.
use async_task_worker.Base.{
  String, ◌≡◌, refl, ap, none, some, List, [], ◌∷◌, ◌++◌, str_dec, ite, arith, inl, inr, ◌⊎◌,
}
use async_task_worker.SseClient.{Event}
use async_task_worker.SseClient.Client.{
  Client, find_event, receive_event, receive_all, take_first, get_event, wait_for_event,
}

-- What other tasks do with a client before a wait.
pub data Call (J : Type 0) : Type 0 where
  receives : Event J → Call J
  gets : Call J
  waits : String → List (List (Event J)) → Call J

module _ {J : Type 0} where
  abbrev pub run : List (Call J) → Client J → Client J
  run [] c = c
  run (receives e ∷ cs) c = run cs (receive_event e c)
  run (gets ∷ cs) c = run cs (get_event c).0
  run (waits t arrivals ∷ cs) c = run cs (wait_for_event t arrivals c).0

  -- A type that no event received has, no event in the queue has.
  abbrev pub Backed : Client J → Type 0
  Backed c = (t : String) → find_event t c.events ≡ none → find_event t c.event_queue ≡ none

  -- The events of the type that were received are still in the queue.
  abbrev pub Kept : String → Client J → Type 0
  Kept t c = find_event t c.events ≡ find_event t c.event_queue

  find-snoc :
      (t : String) (xs : List (Event J)) (e : Event J)
      → find_event t (xs ++ e ∷ [])
        ≡ elim (find_event t xs) [ some x ↦ some x | none ↦ ite (str_dec e.event t) (some e) none ]
  unfolding find_event
  find-snoc t [] e = refl
  find-snoc t (x ∷ xs) e = ground (arith, find-snoc t xs e)

  pub receive_event-Backed : (e : Event J) (c : Client J) → Backed c → Backed (receive_event e c)
  unfolding receive_event
  receive_event-Backed e c b t h =
      ground (arith, b t, h, find-snoc t c.events e, find-snoc t c.event_queue e)

  receive_event-Kept :
      (t : String) (e : Event J) (c : Client J) → Kept t c → Kept t (receive_event e c)
  unfolding receive_event
  receive_event-Kept t e c k =
      ground (arith, k, find-snoc t c.events e, find-snoc t c.event_queue e)

  pub receive_all-Kept :
      (t : String) (es : List (Event J)) (c : Client J) → Kept t c → Kept t (receive_all es c)
  unfolding receive_all
  receive_all-Kept t [] c k = k
  receive_all-Kept t (e ∷ es) c k =
      receive_all-Kept t es (receive_event e c) (receive_event-Kept t e c k)

  pub receive_all-Backed :
      (es : List (Event J)) (c : Client J) → Backed c → Backed (receive_all es c)
  unfolding receive_all
  receive_all-Backed [] c b = b
  receive_all-Backed (e ∷ es) c b =
      receive_all-Backed es (receive_event e c) (receive_event-Backed e c b)

  get_none : (c : Client J) → c.event_queue ≡ [] → get_event c ≡ (c, none)
  unfolding get_event
  get_none c h = ap (take_first c) h

  get_some :
      (c : Client J) (e : Event J) (rest : List (Event J))
      → c.event_queue ≡ e ∷ rest
      → get_event c ≡ (record c { event_queue = rest }, some e)
  unfolding get_event
  get_some c e rest h = ap (take_first c) h

  -- What `get_event` does.
  abbrev Got : Client J → Type 0
  Got c =
      ((c.event_queue ≡ []) × (get_event c ≡ (c, none)))
      ⊎ ((e : Event J) × (rest : List (Event J)) × (c.event_queue ≡ e ∷ rest)
          × (get_event c ≡ (record c { event_queue = rest }, some e)))

  pub get_event-Got : (c : Client J) → Got c
  get_event-Got c = from_queue c.event_queue refl
    where
      from_queue : (q : List (Event J)) → c.event_queue ≡ q → Got c
      from_queue [] h = inl (h, get_none c h)
      from_queue (e ∷ rest) h = inr (e, rest, h, get_some c e rest h)

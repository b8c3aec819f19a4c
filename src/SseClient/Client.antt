-- ===== src/SseClient/Client.antt =====
-- src/async_events/sse_client.py: the events that a client has received, and the waits for them. What
-- the callback of the caller does with an event is left out: its errors are caught.
use async_task_worker.Base.{String, Option, none, some, List, [], ◌∷◌, ◌++◌, str_dec, ite}
use async_task_worker.SseClient.{Event, Collected, fresh, read_field}

-- `_events` and `_event_queue`, whose size has no bound.
pub record Client (J : Type 0) : Type 0 where
  pub events : List (Event J)
  pub event_queue : List (Event J)

abbrev pub new_client : {J : Type 0} → Client J
new_client = record { events = []; event_queue = [] }

-- The first of the events with the type.
unfoldable pub find_event : {J : Type 0} → String → List (Event J) → Option (Event J)
find_event event_type [] = none
find_event event_type (e ∷ es) =
    let rest = find_event event_type es in ite (str_dec e.event event_type) (some e) rest

module _ {J : Type 0} where
  -- `_process_event`, where the data is JSON.
  unfoldable pub receive_event : Event J → Client J → Client J
  receive_event e c = record { events = c.events ++ e ∷ []; event_queue = c.event_queue ++ e ∷ [] }

  unfoldable pub receive_all : List (Event J) → Client J → Client J
  unfolding receive_event
  receive_all [] c = c
  receive_all (e ∷ es) c = receive_all es (receive_event e c)

  abbrev pub take_first : Client J → List (Event J) → Client J × Option (Event J)
  take_first c [] = (c, none)
  take_first c (e ∷ rest) = (record c { event_queue = rest }, some e)

  -- `none` where the time is up before an event comes.
  unfoldable pub get_event : Client J → Client J × Option (Event J)
  get_event c = take_first c c.event_queue

  -- The test of an event that the loop of `wait_for_event` got.
  unfoldable pub test_event :
      (Client J → Client J × Option (Event J))
      → String
      → Client J × Option (Event J)
      → Client J × Option (Event J)
  test_event again event_type (c, none) = again c
  test_event again event_type (c, some e) = ite (str_dec e.event event_type) (c, some e) (again c)

  -- The loop: each list has the events that come before its iteration gets one, and the time is up
  -- after the last.
  unfoldable pub wait_loop : String → List (List (Event J)) → Client J → Client J × Option (Event J)
  unfolding receive_all get_event test_event
  wait_loop event_type [] c = (c, none)
  wait_loop event_type (es ∷ rest) c =
      test_event (wait_loop event_type rest) event_type (get_event (receive_all es c))

  unfoldable pub wait_for_event :
      String → List (List (Event J)) → Client J → Client J × Option (Event J)
  unfolding find_event wait_loop
  wait_for_event event_type arrivals c = elim (find_event event_type c.events) [
    | some e ↦ (c, some e)
    | none ↦ wait_loop event_type arrivals c
  ]

module _ {J : Type 0} (loads : String → Option J) where
  unfoldable pub process : Collected → Client J → Client J
  unfolding receive_event
  process c client = elim (loads c.event_data) [
    | none ↦ client
    | some d ↦ receive_event (record { event = c.event_type; data_obj = d; id = c.event_id }) client
  ]

  -- The loop over the lines of a response.
  unfoldable pub process_lines : List String → Collected → Client J → Client J
  unfolding read_field process
  process_lines [] c client = client
  process_lines (line ∷ lines) c client =
      ite (str_dec line "")
        (ite (str_dec c.event_data "") (process_lines lines c client)
          (process_lines lines fresh (process c client)))
        (process_lines lines (read_field line c) client)

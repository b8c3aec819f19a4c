-- ===== src/SseClient/Tests.antt =====
-- The client of src/async_events/sse_client.py on small inputs, and the theorem at these.
use async_task_worker.Base.{String, ◌≡◌, refl, Option, none, some, List, [], ◌∷◌, str_dec}
use async_task_worker.SseClient.{Event, add_char, receive, process_stream}
use async_task_worker.SseClient.Client.{
  new_client, wait_for_event, find_event, receive_event, get_event,
}
use async_task_worker.SseClient.Kept.{Call, receives, gets, run}
use async_task_worker.SseClient.Received.{IsFirst, wait_for_event-IsFirst}
use async_task_worker.SseClient.Chunks.{joined, receive-joined}

-- A parser that takes every text as it is.
abbrev parse : String → Option String
parse s = some s

abbrev chunks : List String
chunks = "event: st" ∷ "atus\ndata: 1\ndata:" ∷ " 2\n\nda" ∷ []

lines_of_chunks :
    process_stream chunks "" ≡ "event: status" ∷ "data: 1" ∷ "data: 2" ∷ "" ∷ "da" ∷ []
unfolding process_stream add_char str_dec
lines_of_chunks = refl

one_event : receive parse chunks ≡ record { event = "status"; data_obj = "1\n2"; id = none } ∷ []
unfolding receive add_char str_dec
one_event = refl

receive-joined_example : receive parse chunks ≡ receive parse (joined chunks ∷ [])
receive-joined_example = receive-joined parse "event: st" ("atus\ndata: 1\ndata:" ∷ " 2\n\nda" ∷ [])

abbrev event_of : String → String → Event String
event_of t d = record { event = t; data_obj = d; id = none }

-- Two events, of which the first was taken from the queue.
abbrev received : List (Call String)
received = receives (event_of "status" "1") ∷ receives (event_of "status" "2") ∷ gets ∷ []

-- The wait finds the first event of the history, though the queue holds the second one.
from_history :
    (wait_for_event "status" [] (run received new_client)).1 ≡ some (event_of "status" "1")
unfolding wait_for_event find_event receive_event get_event str_dec
from_history = refl

wait_for_event-IsFirst_example :
    IsFirst "done"
      (wait_for_event "done" ([] ∷ (event_of "done" "3" ∷ []) ∷ []) (run received new_client))
wait_for_event-IsFirst_example =
    wait_for_event-IsFirst received "done" ([] ∷ (event_of "done" "3" ∷ []) ∷ [])

-- ===== src/Events/Tests.antt =====
-- The event manager of src/async_events/event_manager.py on small inputs, and the theorems at these.
use async_task_worker.Base.{
  ℕ, String, ◌≡◌, refl, none, some, List, [], ◌∷◌, length, str_dec, if◌then◌else◌,
}
use async_task_worker.Base.Dict
use async_task_worker.Base.Dict.{contains}
use async_task_worker.Events.{
  text, Event, EventManager, notified, init, members, subscribe, unsubscribe, publish_event,
  complete_event, get_recent_events, match_group, cleanup,
}
use async_task_worker.Events.Delivery.{extended, published_to_group}
use async_task_worker.Events.Invariant.{IsValid}
use async_task_worker.Events.Calls.{
  Call, subscribes, unsubscribes, publishes, cleans, run, run-IsValid,
}
use async_task_worker.Events.Subscribed.{ungrouped_gets_nothing}

program : Unit {0}
unfolding init members subscribe unsubscribe publish_event complete_event get_recent_events
    match_group cleanup str_dec Dict.lookup Dict.insert Dict.delete
program = tt

abbrev two_subscribers : EventManager ℕ
two_subscribers = subscribe "s" (some "g") (subscribe "u" none (init 300))

abbrev event : Event ℕ
event = ("status", text "completed") ∷ []

abbrev sent : Event ℕ
sent = ("status", text "completed") ∷ ("group_id", text "g") ∷ []

one_notified : (publish_event 1 "e" "g" event two_subscribers).1 ≡ notified 1
unfolding program
one_notified = refl

found_by_group :
    get_recent_events (match_group "g" "group_id") (publish_event 1 "e" "g" event two_subscribers).0
    ≡ sent ∷ []
unfolding program
found_by_group = refl

-- An event is dropped once its time has passed, and then not published again, as its id stays.
expired_event : (cleanup 302 (publish_event 1 "e" "g" event two_subscribers).0).recent_results ≡ []
unfolding program
expired_event = refl

published_to_group_example :
    let (m', answer) = publish_event 1 "e" "g" event two_subscribers in
    (answer ≡ notified (length (members "g" two_subscribers)))
    × ((j : String)
        → Dict.lookup j m'.subscribers ≡ (
            if contains j (members "g" two_subscribers)
            then extended (complete_event "g" event) (Dict.lookup j two_subscribers.subscribers)
            else Dict.lookup j two_subscribers.subscribers))
unfolding program
published_to_group_example =
    published_to_group 1 "e" "g" event two_subscribers refl (refl, tt) (refl, tt)

ungrouped_gets_nothing_example :
    let m1 = subscribe "v" none two_subscribers in
    Dict.lookup "v" (publish_event 1 "e" "g" event m1).0.subscribers ≡ some []
unfolding program
ungrouped_gets_nothing_example = ungrouped_gets_nothing "v" 1 "e" "g" event two_subscribers refl

abbrev calls : List (Call ℕ)
calls = subscribes "s" (some "g") ∷ publishes 1 "e" "g" event ∷ unsubscribes "s" ∷ cleans 400 ∷ []

run-IsValid_example : IsValid (run calls (init 300))
run-IsValid_example = run-IsValid 300 calls

-- ===== src/Events/Calls.antt =====
-- src/async_events/event_manager.py: the event manager after any calls.
use async_task_worker.Base.{ℕ, String, Option, List, [], ◌∷◌}
use async_task_worker.Events.{
  Event, EventManager, init, subscribe, unsubscribe, publish_event, cleanup,
}
use async_task_worker.Events.Invariant.{
  IsValid, init-IsValid, subscribe-IsValid, unsubscribe-IsValid, cleanup-IsValid,
  publish_event-IsValid,
}

-- The calls, with what they draw from the clock and the source of UUIDs, and a round of the cleanup.
pub data Call (X : Type 0) : Type 0 where
  subscribes : String → Option String → Call X
  unsubscribes : String → Call X
  publishes : ℕ → String → String → Event X → Call X
  cleans : ℕ → Call X

module _ {X : Type 0} where
  abbrev pub step : Call X → EventManager X → EventManager X
  step (subscribes s g) m = subscribe s g m
  step (unsubscribes s) m = unsubscribe s m
  step (publishes now i g event) m = (publish_event now i g event m).0
  step (cleans now) m = cleanup now m

  abbrev pub run : List (Call X) → EventManager X → EventManager X
  run [] m = m
  run (c ∷ cs) m = run cs (step c m)

  step-IsValid : (c : Call X) (m : EventManager X) → IsValid m → IsValid (step c m)
  step-IsValid (subscribes s g) m v = subscribe-IsValid s g m v
  step-IsValid (unsubscribes s) m v = unsubscribe-IsValid s m v
  step-IsValid (publishes now i g event) m v = publish_event-IsValid now i g event m v
  step-IsValid (cleans now) m v = cleanup-IsValid now m v

  keeps_IsValid : (cs : List (Call X)) (m : EventManager X) → IsValid m → IsValid (run cs m)
  keeps_IsValid [] m v = v
  keeps_IsValid (c ∷ cs) m v = keeps_IsValid cs (step c m) (step-IsValid c m v)

  -- After any calls on a new event manager every member of a group has a queue and stands in the
  -- group once, no group is listed twice, and no queue holds more than 100 events.
  pub run-IsValid : (ttl : ℕ) (cs : List (Call X)) → IsValid (run cs (init ttl))
  run-IsValid ttl cs = keeps_IsValid cs (init ttl) (init-IsValid ttl)

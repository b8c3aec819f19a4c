-- ===== src/Events.antt =====
-- src/async_events/event_manager.py: `EventManager` and `GroupFilter`.
-- A critical section under `lock` is one step, and `publish_event` is one call with no other task
-- between its steps. `now` is a reading of the clock, in seconds. An event is a dictionary of values:
-- texts, or other values of the type `X`.
mod Delivery
mod Groups
mod Subscribed
mod Invariant
mod Calls
mod Tests
use async_task_worker.Base.{
  ℕ, ◌+◌, String, Bool, true, false, not, ◌&&◌, Option, none, some, List, [], ◌∷◌, ◌++◌, map,
  length, if◌then◌else◌, ltb, leb, str_dec, ite,
}
use async_task_worker.Base.Dict
use async_task_worker.Base.Dict.{Dict, Set, add, contains, keys}

pub data Value (X : Type 0) : Type 0 where
  text : String → Value X
  other : X → Value X

abbrev pub Event : Type 0 → Type 0
Event X = Dict (Value X)

-- `GroupFilter.match`
unfoldable pub match_group : {X : Type 0} → String → String → Event X → Bool
match_group group_id group_id_field event = elim (Dict.lookup group_id_field event) [
  | none ↦ false
  | some (text t) ↦ ite (str_dec t group_id) true false
  | some (other x) ↦ false
]

-- A subscriber's queue holds its events, the oldest first.
pub record EventManager (X : Type 0) : Type 0 where
  pub subscribers : Dict (List (Event X))
  pub group_subscriptions : Dict Set
  pub recent_results : Dict (Event X × ℕ)
  pub processed_tasks : Set
  pub running : Bool
  pub result_ttl : ℕ

-- `asyncio.Queue(maxsize=100)`
abbrev pub queue_size : ℕ
queue_size = 100

-- How many subscribers were notified, or the wait for room in the queue of a subscriber.
pub data Published : Type 0 where
  notified : ℕ → Published
  waits_for : String → Published

-- `if group_id`: no group for a missing or empty id.
unfoldable pub group_of : Option String → Option String
group_of none = none
group_of (some g) = ite (str_dec g "") none (some g)

-- The loop of `unsubscribe` over the groups.
unfoldable pub leave_groups : String → Dict Set → Dict Set
leave_groups subscriber_id [] = []
leave_groups subscriber_id ((g, s) ∷ rest) =
    (g, Dict.delete subscriber_id s) ∷ leave_groups subscriber_id rest

unfoldable pub drop_empty : Dict Set → Dict Set
drop_empty [] = []
drop_empty ((g, s) ∷ rest) =
    let kept = drop_empty rest in elim s [ [] ↦ kept | e ∷ es ↦ (g, e ∷ es) ∷ kept ]

module _ {X : Type 0} where
  unfoldable pub init : ℕ → EventManager X
  init result_ttl = record {
    subscribers = [];
    group_subscriptions = [];
    recent_results = [];
    processed_tasks = [];
    running = false;
    result_ttl = result_ttl;
  }

  unfoldable pub members : String → EventManager X → Set
  members group_id m = elim (Dict.lookup group_id m.group_subscriptions) [ none ↦ [] | some s ↦ s ]

  -- `subscriber_id` is the UUID that the call draws.
  unfoldable pub subscribe : String → Option String → EventManager X → EventManager X
  unfolding members group_of
  subscribe subscriber_id group_id m = record m {
    subscribers = Dict.insert subscriber_id [] m.subscribers;
    group_subscriptions = elim (group_of group_id) [
      | none ↦ m.group_subscriptions
      | some g ↦ Dict.insert g (add subscriber_id (members g m)) m.group_subscriptions
    ];
  }

  unfoldable pub unsubscribe : String → EventManager X → EventManager X
  unfolding leave_groups
  unsubscribe subscriber_id m = record m {
    subscribers = Dict.delete subscriber_id m.subscribers;
    group_subscriptions = leave_groups subscriber_id m.group_subscriptions;
  }

  -- The loop over the subscribers. `Queue.put` waits while the queue is full.
  unfoldable pub notify : Event X → List String → EventManager X → ℕ → EventManager X × Published
  notify event [] m count = (m, notified count)
  notify event (s ∷ ss) m count = elim (Dict.lookup s m.subscribers) [
    | none ↦ notify event ss m count
    | some queue ↦ elim (leb queue_size (length queue)) [
      | true ↦ (m, waits_for s)
      | false ↦
          notify event ss
            (record m { subscribers = Dict.insert s (queue ++ event ∷ []) m.subscribers })
            (count + 1)
    ]
  ]

  -- The event with its group id. The source adds it to the object that `recent_results` holds.
  unfoldable pub complete_event : String → Event X → Event X
  complete_event group_id event =
      if contains "group_id" event then event else Dict.insert "group_id" (text group_id) event

  unfoldable pub publish_event :
      ℕ → String → String → Event X → EventManager X → EventManager X × Published
  unfolding notify members complete_event
  publish_event now event_id group_id event m =
      let event' = complete_event group_id event in
      elim (contains event_id m.processed_tasks) [
        | true ↦ (m, notified 0)
        | false ↦
            notify event' (keys (members group_id m))
              (record m {
                processed_tasks = add event_id m.processed_tasks;
                recent_results = Dict.insert event_id (event', now) m.recent_results;
              })
              0
      ]

  unfoldable pub recent : (Event X → Bool) → Dict (Event X × ℕ) → List (Event X)
  recent match [] = []
  recent match ((i, (event, time)) ∷ rest) =
      let events = recent match rest in if match event then event ∷ events else events

  unfoldable pub get_recent_events : (Event X → Bool) → EventManager X → List (Event X)
  unfolding recent
  get_recent_events match m = recent match m.recent_results

  unfoldable pub is_processed : String → EventManager X → Bool
  is_processed task_id m = contains task_id m.processed_tasks

  unfoldable pub drop_expired : ℕ → ℕ → Dict (Event X × ℕ) → Dict (Event X × ℕ)
  drop_expired now ttl [] = []
  drop_expired now ttl ((i, (event, time)) ∷ rest) =
      let kept = drop_expired now ttl rest in
      if ltb (time + ttl) now then kept else (i, (event, time)) ∷ kept

  -- A round of the cleanup loop.
  unfoldable pub cleanup : ℕ → EventManager X → EventManager X
  unfolding drop_expired drop_empty
  cleanup now m = record m {
    recent_results = drop_expired now m.result_ttl m.recent_results;
    processed_tasks = if ltb 10_000 (length m.processed_tasks) then [] else m.processed_tasks;
    group_subscriptions = drop_empty m.group_subscriptions;
  }

  unfoldable pub start : EventManager X → EventManager X
  start m = record m { running = true }

  unfoldable pub stop : EventManager X → EventManager X
  stop m = record m { running = false }

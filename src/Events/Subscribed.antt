-- ===== src/Events/Subscribed.antt =====
-- src/async_events/event_manager.py: what a subscription gives.
use async_task_worker.Base.{
  ℕ, ◌+◌, String, ◌≡◌, refl, false, none, some, List, [], ◌∷◌, ◌++◌, arith, length, leb, Bool-cases,
  Option-cases, inl, inr, str_dec, ite, ◌∙◌,
}
use async_task_worker.Base.Dict
use async_task_worker.Base.Dict.{Dict, Set, contains, keys, has, has-keys}
use async_task_worker.Events.Groups.{lookup-leave_groups}
use async_task_worker.Events.{
  Event, EventManager, queue_size, members, subscribe, unsubscribe, notify, group_of,
  complete_event, publish_event,
}

module _ {X : Type 0} where
  notify-others :
      (event : Event X) (ss : List String) (m : EventManager X) (n : ℕ) (j : String)
      → has j ss ≡ false
      → Dict.lookup j (notify event ss m n).0.subscribers ≡ Dict.lookup j m.subscribers
  unfolding notify
  notify-others event [] m n j h = refl
  notify-others event (s ∷ ss) m n j h = elim (Option-cases (Dict.lookup s m.subscribers)) [
    | inl e ↦ rw (notify, e) (notify-others event ss m n j (ground (arith, h)))
    | inr (queue, e) ↦ elim (Bool-cases (leb queue_size (length queue))) [
      | inl k ↦ rw (notify, e, k)
      | inr k ↦
          let m' = record m { subscribers = Dict.insert s (queue ++ event ∷ []) m.subscribers } in
          rw (notify, e, k, notify-others event ss m' (n + 1) j (ground (arith, h)))
            (ground (arith, h, Dict.lookup-insert s j (queue ++ event ∷ []) m.subscribers))
    ]
  ]

  publish_event-others :
      (now : ℕ) (event_id group_id : String) (event : Event X) (m : EventManager X) (j : String)
      → contains j (members group_id m) ≡ false
      → Dict.lookup j (publish_event now event_id group_id event m).0.subscribers
        ≡ Dict.lookup j m.subscribers
  unfolding publish_event
  publish_event-others now event_id group_id event m j h =
      elim (Bool-cases (contains event_id m.processed_tasks)) [
        | inl k ↦ rw (publish_event, k)
        | inr k ↦
            let event' = complete_event group_id event in
            let m1 = record m {
              processed_tasks = Dict.add event_id m.processed_tasks;
              recent_results = Dict.insert event_id (event', now) m.recent_results;
            } in
            rw (publish_event, k)
              (notify-others event' (keys (members group_id m)) m1 0 j
                (ground (arith, h, has-keys j (members group_id m))))
      ]

  -- A subscriber without a group gets nothing: its queue stays empty when an event is published,
  -- to whatever group, if its id was in no group before.
  pub ungrouped_gets_nothing :
      (subscriber_id : String) (now : ℕ) (event_id group_id : String) (event : Event X)
      (m : EventManager X)
      → contains subscriber_id (members group_id m) ≡ false
      → let m1 = subscribe subscriber_id none m in
        Dict.lookup subscriber_id (publish_event now event_id group_id event m1).0.subscribers
        ≡ some []
  unfolding subscribe members group_of
  ungrouped_gets_nothing subscriber_id now event_id group_id event m h =
      let m1 = subscribe subscriber_id none m in
      publish_event-others now event_id group_id event m1 subscriber_id h
      ∙ Dict.lookup-insert subscriber_id subscriber_id [] m.subscribers
      ∙ ground arith

  pub left_groups :
      (s : String) (m : EventManager X) (g j : String)
      → contains j (members g (unsubscribe s m))
        ≡ ite (str_dec j s) false (contains j (members g m))
  unfolding unsubscribe members Dict.lookup
  left_groups s m g j = elim (Option-cases (Dict.lookup g m.group_subscriptions)) [
    | inl e ↦ ground (arith, e, lookup-leave_groups s g m.group_subscriptions)
    | inr (ms, e) ↦
        ground (arith, e, lookup-leave_groups s g m.group_subscriptions, Dict.lookup-delete s j ms)
  ]

  unsubscribe-lookup :
      (s : String) (m : EventManager X) → Dict.lookup s (unsubscribe s m).subscribers ≡ none
  unfolding unsubscribe
  unsubscribe-lookup s m = ground (arith, Dict.lookup-delete s s m.subscribers)

  -- A subscriber that has left gets nothing more: it has no queue and is in no group, and events
  -- that are published afterwards do not change that, while the other members of every group stay.
  pub unsubscribed_is_gone :
      (subscriber_id : String) (now : ℕ) (event_id group_id : String) (event : Event X)
      (m : EventManager X)
      → let m1 = unsubscribe subscriber_id m in
        ((g j : String)
          → contains j (members g m1)
            ≡ ite (str_dec j subscriber_id) false (contains j (members g m)))
        × (Dict.lookup subscriber_id (publish_event now event_id group_id event m1).0.subscribers
            ≡ none)
  unsubscribed_is_gone subscriber_id now event_id group_id event m =
      let m1 = unsubscribe subscriber_id m in
      let left = left_groups subscriber_id m in
      (
        left,
        publish_event-others now event_id group_id event m1 subscriber_id
              (left group_id subscriber_id ∙ ground arith)
            ∙ unsubscribe-lookup subscriber_id m,
      )

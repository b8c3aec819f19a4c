-- ===== src/Events/Invariant.antt =====
-- src/async_events/event_manager.py: what holds of the event manager between any calls.
use async_task_worker.Base.{
  ℕ, ◌+◌, ◌≤◌, String, ◌≡◌, true, false, Option, none, some, List, [], ◌∷◌, ◌++◌, arith, length,
  length-append, leb, Bool-cases, Option-cases, inl, inr, str_dec, ite, if_pos, if_neg,
}
use async_task_worker.Base.Dict
use async_task_worker.Base.Dict.{
  Dict, Set, add, contains, keys, IsUnique, insert-IsUnique, delete-IsUnique,
}
use async_task_worker.Events.{
  Event, EventManager, queue_size, init, members, subscribe, unsubscribe, group_of, notify,
  complete_event, publish_event, cleanup,
}
use async_task_worker.Events.Subscribed.{left_groups}
use async_task_worker.Events.Groups.{
  lookup-leave_groups, leave_groups-IsUnique, drop_empty-IsUnique, set_of-drop_empty,
}

-- The members of the groups have queues, and no queue holds more than 100 events.
pub record IsValid {X : Type 0} (m : EventManager X) : Type 0 where
  pub groups : IsUnique m.group_subscriptions
  pub distinct : (g : String) → IsUnique (members g m)
  pub subscribed :
      (g s : String) → contains s (members g m) ≡ true → contains s m.subscribers ≡ true
  pub bounded :
      (s : String) (queue : List (Event X))
      → Dict.lookup s m.subscribers ≡ some queue
      → length queue ≤ queue_size

module _ {X : Type 0} where
  pub init-IsValid : (ttl : ℕ) → IsValid (init {X = X} ttl)
  unfolding init members Dict.lookup
  init-IsValid ttl = record {
    groups = tt;
    distinct = λ g. tt;
    subscribed = λ g s h. cc;
    bounded = λ s queue h. cc;
  }

  -- The members of the groups after a subscription to a group.
  members-subscribe :
      (s : String) (group_id : Option String) (g0 g : String) (m : EventManager X)
      → group_of group_id ≡ some g0
      → members g (subscribe s group_id m) ≡ ite (str_dec g g0) (add s (members g0 m)) (members g m)
  unfolding subscribe members
  members-subscribe s group_id g0 g m h =
      rw h (ground (arith, Dict.lookup-insert g0 g (add s (members g0 m)) m.group_subscriptions))

  members-ungrouped :
      (s : String) (group_id : Option String) (g : String) (m : EventManager X)
      → group_of group_id ≡ none
      → members g (subscribe s group_id m) ≡ members g m
  unfolding subscribe members
  members-ungrouped s group_id g m h = rw h

  queues-subscribe :
      (s : String) (group_id : Option String) (j : String) (m : EventManager X)
      → Dict.lookup j (subscribe s group_id m).subscribers
        ≡ ite (str_dec j s) (some []) (Dict.lookup j m.subscribers)
  unfolding subscribe
  queues-subscribe s group_id j m = Dict.lookup-insert s j [] m.subscribers

  pub subscribe-IsValid :
      (s : String) (group_id : Option String) (m : EventManager X)
      → IsValid m
      → IsValid (subscribe s group_id m)
  unfolding subscribe
  subscribe-IsValid s group_id m v = elim (Option-cases (group_of group_id)) [
    | inl h ↦ record {
      groups = rw (subscribe, h) v.groups;
      distinct = λ g. rw (members-ungrouped s group_id g m h) (v.distinct g);
      subscribed = λ g j k. ground (
        arith,
        k,
        members-ungrouped s group_id g m h,
        v.subscribed g j,
        queues-subscribe s group_id j m,
      );
      bounded = λ j queue k. ground (arith, k, queues-subscribe s group_id j m, v.bounded j queue);
    }
    | inr (g0, h) ↦ record {
      groups =
          rw (subscribe, h)
            (insert-IsUnique g0 (add s (members g0 m)) m.group_subscriptions v.groups);
      distinct = λ g. rw (members-subscribe s group_id g0 g m h) (elim (str_dec g g0) [
        | yes e ↦ rw (if_pos (str_dec g g0) e) (insert-IsUnique s tt (members g0 m) (v.distinct g0))
        | no n ↦ rw (if_neg (str_dec g g0) n) (v.distinct g)
      ]);
      subscribed = λ g j k. ground (
        arith,
        k,
        members-subscribe s group_id g0 g m h,
        Dict.lookup-insert s j tt (members g0 m),
        v.subscribed g j,
        v.subscribed g0 j,
        queues-subscribe s group_id j m,
      );
      bounded = λ j queue k. ground (arith, k, queues-subscribe s group_id j m, v.bounded j queue);
    }
  ]

  groups_left :
      (s : String) (m : EventManager X) → IsValid m → IsUnique (unsubscribe s m).group_subscriptions
  unfolding unsubscribe
  groups_left s m v = leave_groups-IsUnique s m.group_subscriptions v.groups

  members-unsubscribe :
      (s g : String) (m : EventManager X)
      → members g (unsubscribe s m) ≡ Dict.delete s (members g m)
  unfolding unsubscribe members Dict.delete
  members-unsubscribe s g m = ground (arith, lookup-leave_groups s g m.group_subscriptions)

  distinct_left :
      (s g : String) (m : EventManager X) → IsValid m → IsUnique (members g (unsubscribe s m))
  distinct_left s g m v =
      rw (members-unsubscribe s g m) (delete-IsUnique s (members g m) (v.distinct g))

  queues_left :
      (s j : String) (m : EventManager X)
      → Dict.lookup j (unsubscribe s m).subscribers
        ≡ ite (str_dec j s) none (Dict.lookup j m.subscribers)
  unfolding unsubscribe
  queues_left s j m = Dict.lookup-delete s j m.subscribers

  pub unsubscribe-IsValid :
      (s : String) (m : EventManager X) → IsValid m → IsValid (unsubscribe s m)
  unsubscribe-IsValid s m v = record {
    groups = groups_left s m v;
    distinct = λ g. distinct_left s g m v;
    subscribed =
        λ g j h. ground (arith, h, left_groups s m g j, v.subscribed g j, queues_left s j m);
    bounded = λ j queue h. ground (arith, h, queues_left s j m, v.bounded j queue);
  }

  pub cleanup-IsValid : (now : ℕ) (m : EventManager X) → IsValid m → IsValid (cleanup now m)
  unfolding cleanup members
  cleanup-IsValid now m v = record {
    groups = drop_empty-IsUnique m.group_subscriptions v.groups;
    distinct = λ g. rw (same_members now g m v) (v.distinct g);
    subscribed = λ g s h. v.subscribed g s (rw (same_members now g m v) at h);
    bounded = v.bounded;
  }
    where
      same_members :
          (now : ℕ) (g : String) (m : EventManager X)
          → IsValid m
          → members g (cleanup now m) ≡ members g m
      same_members now g m v = set_of-drop_empty g m.group_subscriptions v.groups

  enqueue-IsValid :
      (event : Event X) (s : String) (queue : List (Event X)) (m : EventManager X)
      → leb queue_size (length queue) ≡ false
      → IsValid m
      → IsValid (record m { subscribers = Dict.insert s (queue ++ event ∷ []) m.subscribers })
  unfolding members
  enqueue-IsValid event s queue m k v = record {
    groups = v.groups;
    distinct = v.distinct;
    subscribed = λ g j h.
        ground
          (arith, h, v.subscribed g j, Dict.lookup-insert s j (queue ++ event ∷ []) m.subscribers);
    bounded = λ j q h. ground (
      arith,
      h,
      k,
      v.bounded j q,
      Dict.lookup-insert s j (queue ++ event ∷ []) m.subscribers,
      length-append queue (event ∷ []),
    );
  }

  -- The loop over the subscribers keeps the groups, and every queue within its bound.
  notify-IsValid :
      (event : Event X) (ss : List String) (m : EventManager X) (n : ℕ)
      → IsValid m
      → IsValid (notify event ss m n).0
  unfolding notify
  notify-IsValid event [] m n v = v
  notify-IsValid event (s ∷ ss) m n v = elim (Option-cases (Dict.lookup s m.subscribers)) [
    | inl e ↦ rw (notify, e) (notify-IsValid event ss m n v)
    | inr (queue, e) ↦ elim (Bool-cases (leb queue_size (length queue))) [
      | inl k ↦ rw (notify, e, k) v
      | inr k ↦
          rw (notify, e, k)
            (notify-IsValid event ss
              (record m { subscribers = Dict.insert s (queue ++ event ∷ []) m.subscribers }) (n + 1)
              (enqueue-IsValid event s queue m k v))
    ]
  ]

  pub publish_event-IsValid :
      (now : ℕ) (event_id group_id : String) (event : Event X) (m : EventManager X)
      → IsValid m
      → IsValid (publish_event now event_id group_id event m).0
  unfolding publish_event
  publish_event-IsValid now event_id group_id event m v =
      elim (Bool-cases (contains event_id m.processed_tasks)) [
        | inl h ↦ rw (publish_event, h) v
        | inr h ↦
            let event' = complete_event group_id event in
            let m1 = record m {
              processed_tasks = Dict.add event_id m.processed_tasks;
              recent_results = Dict.insert event_id (event', now) m.recent_results;
            } in
            rw (publish_event, h)
              (notify-IsValid event' (keys (members group_id m)) m1 0
                (noted event_id event' now m v))
      ]
    where
      noted :
          (event_id : String) (event : Event X) (now : ℕ) (m : EventManager X)
          → IsValid m
          → IsValid (record m {
            processed_tasks = Dict.add event_id m.processed_tasks;
            recent_results = Dict.insert event_id (event, now) m.recent_results;
          })
      noted event_id event now m v = record {
        groups = v.groups;
        distinct = v.distinct;
        subscribed = v.subscribed;
        bounded = v.bounded;
      }

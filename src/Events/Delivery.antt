-- ===== src/Events/Delivery.antt =====
-- src/async_events/event_manager.py: whom `publish_event` reaches.
use async_task_worker.Base.{
  ℕ, ◌+◌, String, ◌≡◌, refl, Bool, true, false, Option, none, some, List, [], ◌∷◌, ◌++◌, All, arith,
  length, if◌then◌else◌, ltb, leb, Bool-cases, Option-cases, inl, inr,
}
use async_task_worker.Base.Dict
use async_task_worker.Base.Dict.{Dict, contains, keys, has, has-keys, IsUnique}
use async_task_worker.Events.{
  Event, EventManager, queue_size, notified, members, notify, complete_event, publish_event,
}

-- No name stands twice.
abbrev IsDistinct : List String → Type 0
IsDistinct [] = Unit
IsDistinct (s ∷ ss) = (has s ss ≡ false) × IsDistinct ss

keys-IsDistinct {ℓ} : {V : Type ℓ} (d : Dict V) → IsUnique d → IsDistinct (keys d)
keys-IsDistinct [] u = tt
keys-IsDistinct ((k, v) ∷ d) u = (ground (arith, has-keys k d, u.0), keys-IsDistinct d u.1)

length-keys {ℓ} : {V : Type ℓ} (d : Dict V) → length (keys d) ≡ length d
length-keys [] = refl
length-keys ((k, v) ∷ d) = omega (arith, length-keys d)

module _ {X : Type 0} where
  -- A subscriber that is there, with room in its queue.
  abbrev pub ready : EventManager X → String → Bool
  ready m s = elim (Dict.lookup s m.subscribers) [
    | none ↦ false
    | some queue ↦ ltb (length queue) queue_size
  ]

  abbrev pub IsReady : EventManager X → String → Type 0
  IsReady m s = ready m s ≡ true

  -- The queue of a subscriber that gets the event.
  abbrev pub extended : Event X → Option (List (Event X)) → Option (List (Event X))
  extended event none = none
  extended event (some queue) = some (queue ++ event ∷ [])

  abbrev enqueued : Event X → String → List (Event X) → EventManager X → EventManager X
  enqueued event s queue m = record m {
    subscribers = Dict.insert s (queue ++ event ∷ []) m.subscribers;
  }

  enqueued-IsReady :
      (event : Event X) (s : String) (queue : List (Event X)) (m : EventManager X)
      (ss : List String)
      → has s ss ≡ false
      → All (IsReady m) ss
      → All (IsReady (enqueued event s queue m)) ss
  enqueued-IsReady event s queue m [] h r = tt
  enqueued-IsReady event s queue m (j ∷ js) h r = (
    ground (arith, h, r.0, Dict.lookup-insert s j (queue ++ event ∷ []) m.subscribers),
    enqueued-IsReady event s queue m js (ground (arith, h)) r.1,
  )

  notify-counts :
      (event : Event X) (ss : List String) (m : EventManager X) (n : ℕ)
      → IsDistinct ss
      → All (IsReady m) ss
      → ((notify event ss m n).1 ≡ notified (n + length ss))
        × ((j : String)
            → Dict.lookup j (notify event ss m n).0.subscribers ≡ (
                if has j ss
                then extended event (Dict.lookup j m.subscribers)
                else Dict.lookup j m.subscribers))
  unfolding notify
  notify-counts event [] m n d r = (ground arith, λ j. refl)
  notify-counts event (s ∷ ss) m n d r = elim (Option-cases (Dict.lookup s m.subscribers)) [
    | inl e ↦ ground (arith, e, r.0)
    | inr (queue, e) ↦
        let m' = enqueued event s queue m in
        let (count, there) =
          notify-counts event ss m' (n + 1) d.1 (enqueued-IsReady event s queue m ss d.0 r.1) in
        let open_queue : leb queue_size (length queue) ≡ false = ground (arith, e, r.0) in
        rw (notify, e, open_queue)
          (
            ground (arith, count),
            λ j. ground (
              arith,
              there j,
              d.0,
              e,
              Dict.lookup-insert s j (queue ++ event ∷ []) m.subscribers,
            ),
          )
  ]

  -- A new event reaches its group: if every member of the group has room in its queue, the call
  -- counts the members, each member's queue ends with the event, which names the group if it named
  -- none, and every other queue is as it was.
  pub published_to_group :
      (now : ℕ) (event_id group_id : String) (event : Event X) (m : EventManager X)
      → contains event_id m.processed_tasks ≡ false
      → IsUnique (members group_id m)
      → All (IsReady m) (keys (members group_id m))
      → let (m', answer) = publish_event now event_id group_id event m in
        (answer ≡ notified (length (members group_id m)))
        × ((j : String)
            → Dict.lookup j m'.subscribers ≡ (
                if contains j (members group_id m)
                then extended (complete_event group_id event) (Dict.lookup j m.subscribers)
                else Dict.lookup j m.subscribers))
  unfolding publish_event
  published_to_group now event_id group_id event m h u r =
      let group = members group_id m in
      let event' = complete_event group_id event in
      let m1 = record m {
        processed_tasks = Dict.add event_id m.processed_tasks;
        recent_results = Dict.insert event_id (event', now) m.recent_results;
      } in
      let (count, there) = notify-counts event' (keys group) m1 0 (keys-IsDistinct group u) r in
      rw (publish_event, h)
        (ground (arith, count, length-keys group), λ j. ground (arith, there j, has-keys j group))

  notify-processed :
      (event : Event X) (ss : List String) (m : EventManager X) (n : ℕ)
      → (notify event ss m n).0.processed_tasks ≡ m.processed_tasks
  unfolding notify
  notify-processed event [] m n = refl
  notify-processed event (s ∷ ss) m n = elim (Option-cases (Dict.lookup s m.subscribers)) [
    | inl e ↦ rw (notify, e) (notify-processed event ss m n)
    | inr (queue, e) ↦ elim (Bool-cases (leb queue_size (length queue))) [
      | inl k ↦ rw (notify, e, k)
      | inr k ↦ rw (notify, e, k) (notify-processed event ss (enqueued event s queue m) (n + 1))
    ]
  ]

  publish-processed :
      (now : ℕ) (event_id group_id : String) (event : Event X) (m : EventManager X)
      → contains event_id (publish_event now event_id group_id event m).0.processed_tasks ≡ true
  unfolding publish_event
  publish-processed now event_id group_id event m =
      elim (Bool-cases (contains event_id m.processed_tasks)) [
        | inl h ↦ rw (publish_event, h) h
        | inr h ↦
            let m1 = record m {
              processed_tasks = Dict.add event_id m.processed_tasks;
              recent_results =
                  Dict.insert event_id (complete_event group_id event, now) m.recent_results;
            } in
            rw
              (
                publish_event,
                h,
                notify-processed (complete_event group_id event) (keys (members group_id m)) m1 0,
              )
              (ground (arith, Dict.lookup-insert event_id event_id tt m.processed_tasks))
      ]

  publish_event-known :
      (now : ℕ) (event_id group_id : String) (event : Event X) (m : EventManager X)
      → contains event_id m.processed_tasks ≡ true
      → publish_event now event_id group_id event m ≡ (m, notified 0)
  unfolding publish_event
  publish_event-known now event_id group_id event m h = rw (publish_event, h)

  -- An event is published once: a second call with its id reaches nobody and changes nothing.
  pub published_once :
      (now later : ℕ) (event_id group_id other_group : String) (event other_event : Event X)
      (m : EventManager X)
      → let m' = (publish_event now event_id group_id event m).0 in
        publish_event later event_id other_group other_event m' ≡ (m', notified 0)
  published_once now later event_id group_id other_group event other_event m =
      publish_event-known later event_id other_group other_event _
        (publish-processed now event_id group_id event m)

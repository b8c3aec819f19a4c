-- ===== src/Queue/Least.antt =====
-- Which task `TaskQueue.get` of src/async_task_worker/queue.py hands out, and what
-- `clean_cancelled_tasks` does to a cancelled task that the queue still holds.
use async_task_worker.Base.{
  ℕ, String, ◌≡◌, refl, true, false, List, [], ◌∷◌, arith, All, Bool-cases, inl, inr, ◌∙◌, sym,
}
use mathlib.Core.Path.{subst₂}
use async_task_worker.Base.Dict
use async_task_worker.Base.Dict.{Set, contains}
use async_task_worker.Queue.{
  TaskQueue, Got, got, waits, value_error, get, remove_task, is_task_queued, clean_cancelled_tasks,
}
use async_task_worker.Queue.Heap.{Item, has_id}
use async_task_worker.Queue.Order.{NotBelow, IsSorted}
use async_task_worker.Queue.Live.{live, has_id-live, All-live}
use async_task_worker.Queue.Invariant.{IsValid, pending}
use async_task_worker.Queue.Refinement.{Answers, get-Answers}

module _ {J : Type 0} where
  live-IsSorted : (c : Set) (xs : List (Item J)) → IsSorted xs → IsSorted (live c xs)
  unfolding live
  live-IsSorted c [] s = tt
  live-IsSorted c (x ∷ xs) s = elim (Bool-cases (contains x.task_id c)) [
    | inl h ↦ rw h (live-IsSorted c xs s.1)
    | inr h ↦ rw h (All-live (NotBelow x) c xs s.0, live-IsSorted c xs s.1)
  ]

  Answers-least :
      (x : Item J) (xs : List (Item J)) (g : Got J) (left : List (Item J))
      → IsSorted xs
      → Answers xs g left
      → g ≡ got x
      → All (NotBelow x) left
  Answers-least x [] waits left s a e = cc
  Answers-least x [] (got y) left s a e = absurd a
  Answers-least x [] value_error left s a e = absurd a
  Answers-least x (y ∷ ys) (got z) left s a e =
      let p : y ≡ x = cc (a.0) in subst₂ (λ w l. All (NotBelow w) l) p (sym a.1) s.0
  Answers-least x (y ∷ ys) waits left s a e = absurd a
  Answers-least x (y ∷ ys) value_error left s a e = absurd a

  -- No task that still waits after a `get` comes before the task that it handed out, in the order
  -- of (priority, task_id).
  pub get_least :
      (now later : ℕ) (q : TaskQueue J) (x : Item J)
      → IsValid q
      → (get now later q).1 ≡ got x
      → All (NotBelow x) (pending (get now later q).0)
  get_least now later q x v e =
      Answers-least x (pending q) (get now later q).1 (pending (get now later q).0)
        (live-IsSorted q.cancelled_task_ids q.queue.items v.sorted) (get-Answers now later q v).1 e

  live_ext :
      (c d : Set) (xs : List (Item J))
      → ((j : String) → contains j c ≡ contains j d)
      → live c xs ≡ live d xs
  unfolding live
  live_ext c d [] h = refl
  live_ext c d (x ∷ xs) h = ground (arith, h x.task_id, live_ext c d xs h)

  -- A waiting task that `remove_task` cancelled waits again after `clean_cancelled_tasks` got its
  -- id, while `is_task_queued` says that it does not.
  pub clean_revives :
      (t : String) (q : TaskQueue J)
      → IsValid q
      → has_id t (pending q) ≡ true
      → (pending (clean_cancelled_tasks (t ∷ []) (remove_task t q).0) ≡ pending q)
        × (is_task_queued t (clean_cancelled_tasks (t ∷ []) (remove_task t q).0) ≡ false)
  unfolding clean_cancelled_tasks remove_task is_task_queued
  clean_revives t q v h =
      rw (v.queued t ∙ h, remove_task)
        (
          live_ext (Dict.delete t (Dict.add t c)) c q.queue.items same,
          ground (arith, Dict.lookup-delete t t (Dict.delete t q.queued_task_ids)),
        )
    where
      c : Set
      c = q.cancelled_task_ids

      same : (j : String) → contains j (Dict.delete t (Dict.add t c)) ≡ contains j c
      same j = ground (
        arith,
        Dict.lookup-delete t j (Dict.add t c),
        Dict.lookup-insert t j tt c,
        has_id-live t c q.queue.items,
        h,
      )

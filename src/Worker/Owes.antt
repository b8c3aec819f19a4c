-- ===== src/Worker/Owes.antt =====
-- How many calls of `task_done` the queue of src/async_task_worker/queue.py owes.
use async_task_worker.Base.{
  ℕ, zero, suc, ◌+◌, ◌≤◌, ◌≡◌, refl, sym, ap, ◌∙◌, String, some, List, [], ◌∷◌, length, arith,
  Bool-cases, inl, inr,
}
use async_task_worker.Base.Dict
use async_task_worker.Base.Dict.{contains}
use async_task_worker.Queue
use async_task_worker.Queue.{TaskQueue, Got, got, waits, value_error, next_valid, deliver}
use async_task_worker.Queue.Heap
use async_task_worker.Queue.Heap.{Item}
use async_task_worker.Queue.Live.{length-push}
use async_task_worker.Worker.Waits.{set}
use async_task_worker.Worker.Loop.{Phase, waiting, taken, processing, stopped, get_elem?}

-- How many loops hold a task.
abbrev pub count_processing : List Phase → ℕ
count_processing [] = 0
count_processing (waiting ∷ ps) = count_processing ps
count_processing (taken t ∷ ps) = suc (count_processing ps)
count_processing (processing t ∷ ps) = suc (count_processing ps)
count_processing (stopped ∷ ps) = count_processing ps

abbrev pub weight : Phase → ℕ
weight waiting = 0
weight (taken t) = 1
weight (processing t) = 1
weight stopped = 0

pub count-set :
    (ps : List Phase) (i : ℕ) (old p : Phase)
    → get_elem? ps i ≡ some old
    → count_processing (set ps i p) + weight old ≡ count_processing ps + weight p
unfolding set
count-set [] i old p h = cc
count-set (waiting ∷ ps) zero old p h = ground (arith, h)
count-set (taken t ∷ ps) zero old p h = ground (arith, h)
count-set (processing t ∷ ps) zero old p h = ground (arith, h)
count-set (stopped ∷ ps) zero old p h = ground (arith, h)
count-set (waiting ∷ ps) (suc i) old p h = count-set ps i old p h
count-set (taken t ∷ ps) (suc i) old p h = omega (arith, count-set ps i old p h)
count-set (processing t ∷ ps) (suc i) old p h = omega (arith, count-set ps i old p h)
count-set (stopped ∷ ps) (suc i) old p h = count-set ps i old p h

pub count_pos :
    (ps : List Phase) (i : ℕ) (t : String)
    → get_elem? ps i ≡ some (processing t)
    → 1 ≤ count_processing ps
count_pos [] i t h = cc
count_pos (waiting ∷ ps) zero t h = cc
count_pos (taken u ∷ ps) zero t h = omega arith
count_pos (processing u ∷ ps) zero t h = omega arith
count_pos (stopped ∷ ps) zero t h = cc
count_pos (waiting ∷ ps) (suc i) t h = count_pos ps i t h
count_pos (taken u ∷ ps) (suc i) t h = omega arith
count_pos (processing u ∷ ps) (suc i) t h = omega arith
count_pos (stopped ∷ ps) (suc i) t h = count_pos ps i t h

-- The loops of a pool that was started.
abbrev pub all_waiting : ℕ → List Phase
all_waiting zero = []
all_waiting (suc n) = waiting ∷ all_waiting n

pub count-all_waiting : (n : ℕ) → count_processing (all_waiting n) ≡ 0
count-all_waiting zero = refl
count-all_waiting (suc n) = count-all_waiting n

-- The queue owes one `task_done` for each of its items and for `k` more.
abbrev pub Owes : {J : Type 0} → TaskQueue J → ℕ → Type 0
Owes q k = q.queue.unfinished_tasks ≡ length q.queue.items + k

-- What it owes after an answer of `get`.
abbrev pub OwesAfter : {J : Type 0} → Got J → TaskQueue J → ℕ → Type 0
OwesAfter (got item) q k = Owes q (suc k)
OwesAfter waits q k = Owes q k
OwesAfter value_error q k = ⊥

module _ {J : Type 0} where
  next_valid-OwesAfter :
      (now later k : ℕ) (xs : List (Item J)) (q : TaskQueue J)
      → q.queue.items ≡ xs
      → q.queue.unfinished_tasks ≡ length xs + k
      → OwesAfter (next_valid now later xs q).1 (next_valid now later xs q).0 k
  unfolding next_valid deliver Heap.task_done
  next_valid-OwesAfter now later k [] q e h = h ∙ ap (λ ys. length ys + k) (sym e)
  next_valid-OwesAfter now later k (x ∷ xs) q e h =
      elim (Bool-cases (contains x.task_id q.cancelled_task_ids)) [
        | inl c ↦
            let u : q.queue.unfinished_tasks ≡ suc (length xs + k) = omega (arith, h) in
            rw (c, next_valid, u)
              (next_valid-OwesAfter now later k xs
                (record q {
                  queue = record q.queue { items = xs; unfinished_tasks = length xs + k };
                  cancelled_task_ids = Dict.delete x.task_id q.cancelled_task_ids;
                })
                refl refl)
        | inr c ↦ rw (c, next_valid) (omega (arith, h))
      ]

  pub get-OwesAfter :
      (now later k : ℕ) (q : TaskQueue J)
      → Owes q k
      → OwesAfter (Queue.get now later q).1 (Queue.get now later q).0 k
  unfolding Queue.get
  get-OwesAfter now later k q h = next_valid-OwesAfter now later k q.queue.items q refl h

  pub remove_task-Owes :
      (t : String) (k : ℕ) (q : TaskQueue J) → Owes q k → Owes (Queue.remove_task t q).0 k
  unfolding Queue.remove_task
  remove_task-Owes t k q h = ground (arith, h)

  pub clean-Owes :
      (ts : List String) (k : ℕ) (q : TaskQueue J)
      → Owes q k
      → Owes (Queue.clean_cancelled_tasks ts q) k
  unfolding Queue.clean_cancelled_tasks Queue.forget
  clean-Owes [] k q h = h
  clean-Owes (t ∷ ts) k q h = clean-Owes ts k (Queue.forget t q) h

  pub put-Owes :
      (entered now k : ℕ) (x : Item J) (q q' : TaskQueue J)
      → Owes q k
      → Queue.put entered now x q ≡ some q'
      → Owes q' k
  unfolding Queue.put Heap.put
  put-Owes entered now k x q q' h e = ground (arith, h, e, length-push x q.queue.items)

  pub task_done-owed :
      (k : ℕ) (q : TaskQueue J)
      → Owes q (suc k)
      → Queue.task_done q
        ≡ some (record q { queue = record q.queue { unfinished_tasks = length q.queue.items + k } })
  unfolding Queue.task_done Heap.task_done
  task_done-owed k q h =
      let u : q.queue.unfinished_tasks ≡ suc (length q.queue.items + k) = omega (arith, h) in
      rw (u, Queue.task_done, Heap.task_done)

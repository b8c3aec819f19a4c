-- ===== src/Queue/Tests.antt =====
-- The queue of src/async_task_worker/queue.py on small inputs, and the theorems at these.
use async_task_worker.Base.{ℕ, ◌≡◌, refl, false, none, some, [], ◌∷◌, str_dec}
use async_task_worker.Base.Dict
use async_task_worker.Base.Int.{pos, negsuc}
use async_task_worker.Queue.{
  TaskQueue, got, init, put, get, remove_task, is_task_queued, clean_cancelled_tasks,
}
use async_task_worker.Queue.Heap
use async_task_worker.Queue.Heap.{Item, push, has_id, item_lt}
use async_task_worker.Queue.Live.{live, without}
use async_task_worker.Queue.Invariant.{IsValid, pending, init-IsValid, stored, stored-IsValid}
use async_task_worker.Queue.Refinement.{Answers, put_refines, remove_task_refines, get-Answers}
use async_task_worker.Queue.Least.{clean_revives}
use async_task_worker.Queue.Stats.{IsAccurate, here, next, puts, gets, Reach-stats}

abbrev report : Item ℕ
report = record { priority = pos 5; task_id = "report"; call = 1; timeout = none }

abbrev urgent : Item ℕ
urgent = record { priority = negsuc 0; task_id = "urgent"; call = 2; timeout = some 30 }

abbrev none_waiting : TaskQueue ℕ
none_waiting = init (some 2)

abbrev one_waiting : TaskQueue ℕ
one_waiting = stored 10 11 report none_waiting

abbrev two_waiting : TaskQueue ℕ
two_waiting = stored 20 21 urgent one_waiting

program : Unit {0}
unfolding init get put remove_task is_task_queued clean_cancelled_tasks push item_lt str_dec live
    without Dict.lookup Dict.insert Dict.delete Heap.full
program = tt

one-IsValid : IsValid one_waiting
unfolding program
one-IsValid = stored-IsValid 10 11 report none_waiting (init-IsValid (some 2)) refl

two-IsValid : IsValid two_waiting
unfolding program
two-IsValid = stored-IsValid 20 21 urgent one_waiting one-IsValid refl

-- The urgent task is handed out first.
get_two : (get 30 31 two_waiting).1 ≡ got urgent
unfolding program
get_two = refl

-- A cancelled task is skipped.
get_cancelled : (get 30 31 (remove_task "urgent" two_waiting).0).1 ≡ got report
unfolding program
get_cancelled = refl

-- Its removal from the tracking brings it back.
get_revived :
    (get 30 31 (clean_cancelled_tasks ("urgent" ∷ []) (remove_task "urgent" two_waiting).0)).1
    ≡ got urgent
unfolding program
get_revived = refl

-- A full queue makes the caller wait.
put_full : put 40 41 (record report { task_id = "late" }) two_waiting ≡ none
unfolding program
put_full = refl

put_refines_example :
    (q' : TaskQueue ℕ) × (put 20 21 urgent one_waiting ≡ some q')
    × IsValid q'
    × (pending q' ≡ push urgent (pending one_waiting))
unfolding program
put_refines_example = put_refines 20 21 urgent one_waiting one-IsValid refl refl

remove_task_refines_example :
    IsValid (remove_task "urgent" two_waiting).0
    × (pending (remove_task "urgent" two_waiting).0 ≡ without "urgent" (pending two_waiting))
    × ((remove_task "urgent" two_waiting).1 ≡ has_id "urgent" (pending two_waiting))
remove_task_refines_example = remove_task_refines "urgent" two_waiting two-IsValid

get-Answers_example :
    IsValid (get 30 31 two_waiting).0
    × Answers (pending two_waiting) (get 30 31 two_waiting).1 (pending (get 30 31 two_waiting).0)
get-Answers_example = get-Answers 30 31 two_waiting two-IsValid

clean_revives_example :
    (pending (clean_cancelled_tasks ("urgent" ∷ []) (remove_task "urgent" two_waiting).0)
      ≡ pending two_waiting)
    × (is_task_queued "urgent"
          (clean_cancelled_tasks ("urgent" ∷ []) (remove_task "urgent" two_waiting).0)
        ≡ false)
unfolding program
clean_revives_example = clean_revives "urgent" two_waiting two-IsValid refl

Reach-stats_example : IsAccurate (get 30 31 one_waiting).0.stats
unfolding program
Reach-stats_example =
    Reach-stats (some 2) (next (next here (puts 10 11 report refl)) (gets 30 31 refl))

-- ===== src/Worker/LoopTests.antt =====
-- The worker loops and the waits of src/async_task_worker on small inputs.
use async_task_worker.Base.{
  ℕ, ◌-◌, str_lt, String, ◌≡◌, refl, sym, ◌∙◌, Bool, true, false, none, some, [], ◌∷◌, map, str_dec,
  arith, Option, if_neg,
}
use mathlib.Core.Path.{subst}
use async_task_worker.Base.Dict
use async_task_worker.Base.Dict.{contains, has}
use async_task_worker.Status.{new_task, mark_completed, is_terminal_state}
use async_task_worker.Executor.{done}
use async_task_worker.Queue
use async_task_worker.Queue.{TaskQueue}
use async_task_worker.Queue.Heap.{push}
use async_task_worker.Queue.Heap
use async_task_worker.Queue.Live.{live}
use async_task_worker.Queue.Invariant
use async_task_worker.Queue.Invariant.{IsValid, init-IsValid, stored, stored-IsValid}
use async_task_worker.Futures
use async_task_worker.Futures.{resolved, new_manager, get_future}
use async_task_worker.Pool
use async_task_worker.Worker.{make_item, add_task, on_task_started, Job}
use async_task_worker.Worker.Maintenance.{get_task_future}
use async_task_worker.Worker.Process.{process_begin, outcome, Ended}
use async_task_worker.Worker.Waits.{
  results, completed_result, sort_out, get_futures, map_futures, first_completed, done_futures, set,
  wait_for_tasks, wait_for_any_task, wait_for_rest, wait_for_first, await_each,
}
use async_task_worker.Worker.Fetched.{future_of, expected, Resolved}
use async_task_worker.Worker.Awaited.{wait_for_tasks-results}
use async_task_worker.Worker.AwaitedAny.{wait_for_any_task-Answers, Answers}
use async_task_worker.Worker.Loop.{
  next_task, take_task, adds, begins, System, next, here, fetches, processing, waiting, stopped,
  get_elem?,
}
use async_task_worker.Worker.Owes.{Owes, all_waiting, count_processing}
use async_task_worker.Worker.Owed.{task_done_allowed}
use async_task_worker.Worker.Lost.{lost_worker, cancelled_step}
use async_task_worker.Worker.Serve.{serve}
use async_task_worker.Worker.Served.{serve_all}
use async_task_worker.Worker.Sample
use async_task_worker.Worker.Sample.{Small, idle, request, name}

program : Unit {0}
unfolding Heap.ties Queue.init Pool.init Pool.start get_future Queue.put make_item completed_result
    sort_out get_futures map_futures first_completed done_futures set wait_for_tasks
    wait_for_any_task wait_for_rest wait_for_first await_each get_task_future Pool.worker_count
    Heap.item_lt str_lt on_task_started process_begin next_task take_task add_task Queue.get
    Queue.next_valid new_task mark_completed is_terminal_state Heap.full push Heap.put str_dec
    Dict.lookup Dict.insert Dict.delete live
program = tt

-- The task `a` waits, and `b` is completed.
abbrev half_done : Small
half_done = record Sample.waiting {
  tasks = ("a", new_task "a" 0 []) ∷ ("b", mark_completed 4 9 (new_task "b" 0 [])) ∷ [];
}

abbrev three : Small
three = record half_done { tasks = ("c", new_task "c" 0 []) ∷ half_done.tasks }

abbrev all_seven : Small → ℕ → Option (Futures.Future ℕ)
all_seven w a = some (resolved 7)

half_done-Resolved :
    let w' = (wait_for_tasks 0 (some 5) all_seven ("b" ∷ "a" ∷ []) half_done).0 in
    Resolved 0 ("b" ∷ "a" ∷ []) half_done w' (all_seven w') (λ t. 7)
unfolding program
half_done-Resolved t h n = elim (str_dec t "a") [
  | yes e ↦
      let w' = (wait_for_tasks 0 (some 5) all_seven ("b" ∷ "a" ∷ []) half_done).0 in
      subst (λ j. future_of 0 w' (all_seven w') j ≡ some (resolved 7)) (sym e) refl
  | no d ↦ elim (str_dec t "b") [
    | yes e ↦ cc (subst (λ j. completed_result 0 (Dict.lookup j half_done.tasks) ≡ none) e n)
    | no d' ↦ cc (sym h ∙ if_neg (str_dec t "b") d' true _ ∙ if_neg (str_dec t "a") d true false)
  ]
]

wait_for_tasks-results_example :
    (wait_for_tasks 0 (some 5) all_seven ("b" ∷ "a" ∷ []) half_done).1
    ≡ results (map (expected 0 half_done (λ t. 7)) ("b" ∷ "a" ∷ []))
unfolding program
wait_for_tasks-results_example =
    wait_for_tasks-results 0 (some 5) all_seven ("b" ∷ "a" ∷ []) (λ t. 7) half_done
      (refl, (refl, tt)) half_done-Resolved

wait_for_any_task-Answers_example :
    let w' = (wait_for_any_task 0 none all_seven (λ d rest. d) ("a" ∷ "c" ∷ []) three).0 in
    Answers 0 ("a" ∷ "c" ∷ []) three w' (all_seven w') 7 "c"
unfolding program
wait_for_any_task-Answers_example =
    wait_for_any_task-Answers 0 none all_seven (λ d rest. d) ("a" ∷ "c" ∷ []) three 7 "c"
      (λ P d rest p ps. p) refl

-- The first loop runs `a`, and the second one waits.
abbrev busy : System ℕ String ℕ
busy = record { worker = Sample.at_work; loops = processing "a" ∷ waiting ∷ [] }

abbrev lost : System ℕ String ℕ
lost = cancelled_step 10 "a" 0 busy

lost_worker_example :
    let u : System ℕ String ℕ = record {
      worker = (next_task 11 12 lost.worker).0;
      loops = set lost.loops 1 (next_task 11 12 lost.worker).1;
    } in
    (lost.worker.worker_pool.running ≡ busy.worker.worker_pool.running)
    × (Pool.worker_count lost.worker.worker_pool ≡ Pool.worker_count busy.worker.worker_pool)
    × (get_elem? u.loops 0 ≡ some stopped)
unfolding program
lost_worker_example =
    lost_worker name busy _ 0 10 "a" refl refl (next here (fetches _ 1 11 12 refl))

-- A task is added, and one of two loops takes it.
abbrev started : System ℕ String ℕ
started = record { worker = idle; loops = all_waiting 2 }

abbrev enqueued : System ℕ String ℕ
enqueued = record started { worker = (add_task name "x" 0 1 2 request idle).0 }

abbrev fetched : System ℕ String ℕ
fetched = record {
  worker = (next_task 3 4 enqueued.worker).0;
  loops = set enqueued.loops 0 (next_task 3 4 enqueued.worker).1;
}

abbrev begun : System ℕ String ℕ
begun = record {
  worker = process_begin 5 "a" fetched.worker;
  loops = set fetched.loops 0 (processing "a");
}

task_done_allowed_example :
    Owes begun.worker.queue (count_processing begun.loops)
    × (q : TaskQueue (Job String ℕ)) × (Queue.task_done begun.worker.queue ≡ some q)
    × Owes q (count_processing begun.loops - 1)
unfolding program
task_done_allowed_example =
    task_done_allowed name idle 2 (some 5) begun 0 "a" refl
      (next (next (next here (adds started "x" 0 1 2 request refl)) (fetches enqueued 0 3 4 refl))
        (begins fetched 0 5 "a" refl))
      (((tt, tt), tt), tt) refl

-- Two tasks wait.
abbrev two_tasks : Small
two_tasks = record Sample.waiting {
  queue = stored 3 4 (make_item name "b" request idle) Sample.waiting.queue;
}

abbrev always_seven : String → Ended ℕ × Bool
always_seven t = (outcome (done 7), true)

serve_all_example :
    ((serve 2 (λ n. n) always_seven two_tasks).1
      ≡ map (λ x. x.task_id) (Invariant.pending two_tasks.queue))
    × (Invariant.pending (serve 2 (λ n. n) always_seven two_tasks).0.queue ≡ [])
unfolding program
serve_all_example =
    serve_all 2 0 (λ n. n) always_seven two_tasks (λ t e. cc)
      (stored-IsValid 3 4 (make_item name "b" request idle) Sample.waiting.queue
        (stored-IsValid 1 2 (make_item name "a" request idle) idle.queue (init-IsValid (some 5))
          refl)
        refl)
      refl refl (omega arith)

-- ===== src/Worker/Tests.antt =====
-- The worker of src/async_task_worker/core.py on small inputs, and the theorems at these.
use async_task_worker.Base.{
  ℕ, ◌+◌, ◌*◌, String, ◌≡◌, refl, true, false, none, some, [], ◌∷◌, length, str_dec, ite,
  if◌then◌else◌,
}
use async_task_worker.Base.Dict
use async_task_worker.Base.Dict.{Dict, contains, IsUnique}
use async_task_worker.Status.{
  completed, failed, TaskInfo, new_task, mark_started, is_terminal_state,
}
use async_task_worker.Exceptions.{str, task_cancellation_error}
use async_task_worker.Executor.{fails}
use async_task_worker.Queue
use async_task_worker.Queue.{TaskQueue}
use async_task_worker.Queue.Heap
use async_task_worker.Queue.Heap.{push, has_id}
use async_task_worker.Queue.Live.{without}
use async_task_worker.Queue.Invariant
use async_task_worker.Queue.Invariant.{IsValid, init-IsValid, stored, stored-IsValid}
use async_task_worker.Futures
use async_task_worker.Futures.{task_error, raised, resolved, at, find_open, new_manager, get_future}
use async_task_worker.Pool
use async_task_worker.Pool.{active, cancelling}
use async_task_worker.Worker.Sample.{idle, request, name, waiting, taken, at_work}
use async_task_worker.Worker.{
  added, add_task, make_item, get_task_info, cancel_task, on_task_started, on_task_completed,
}
use async_task_worker.Worker.Maintenance.{day, cleanup_old_tasks, get_all_tasks, skipped}
use async_task_worker.Worker.Process.{outcome, process_begin, process_end}
use async_task_worker.Worker.Adding.{add_queues, IsNew, item_of}
use async_task_worker.Worker.Cancel.{cancelled_early, cancel_pending, cancelled_task_completes}
use async_task_worker.Worker.Running.{cancelled_running, cancelled_running_fails}
use async_task_worker.Worker.Retention.{cleanup_removes_old, ended_before}

program : Unit {0}
unfolding Queue.init Pool.init Pool.start Pool.register Pool.cancel_running_task get_future
    Queue.put Queue.get Queue.is_task_queued Queue.remove_task add_task make_item get_task_info
    cancel_task on_task_started on_task_completed process_begin process_end cleanup_old_tasks
    get_all_tasks new_task mark_started is_terminal_state find_open Futures.complete_from_result
    Heap.full push Heap.put str_dec Dict.lookup Dict.insert Dict.delete skipped
program = tt

waiting-IsValid : IsValid waiting.queue
unfolding program
waiting-IsValid =
    stored-IsValid 1 2 (make_item name "a" request idle) idle.queue (init-IsValid (some 5)) refl

-- A task that is added, started and completed.
life : (on_task_completed 9 "a" 7 false at_work).future_manager.store ≡ resolved 7 ∷ []
unfolding program
life = refl

-- The limit 0 lets one task through.
limit_zero : length (get_all_tasks none (some 0) none waiting) ≡ 1
unfolding program
limit_zero = refl

add_queues_example :
    let (w', answer) = add_task name "x" 0 1 2 request idle in
    (answer ≡ added "a")
    × ((info : TaskInfo ℕ) × IsNew "a" 0 [] info
        × ((u : String)
            → get_task_info u w' ≡ ite (str_dec u "a") (some info) (get_task_info u idle)))
    × (Invariant.pending w'.queue
        ≡ push (item_of name "a" request idle) (Invariant.pending idle.queue))
    × IsValid w'.queue
    × IsUnique w'.tasks
unfolding program
add_queues_example =
    add_queues name "x" 0 1 2 request idle refl (init-IsValid (some 5)) refl refl tt

cancel_pending_example :
    let w' = (cancel_task 6 7 "a" waiting).0 in
    ((cancel_task 6 7 "a" waiting).1 ≡ true)
    × (get_task_info "a" w' ≡ some (cancelled_early 6 (new_task "a" 0 [])))
    × IsValid w'.queue
    × (Invariant.pending w'.queue ≡ without "a" (Invariant.pending waiting.queue))
    × ((a : ℕ)
        → find_open "a" waiting.future_manager ≡ some a
        → at w'.future_manager.store a ≡ some (raised (task_error "Task cancelled" "a")))
unfolding program
cancel_pending_example =
    cancel_pending 6 7 "a" waiting (new_task "a" 0 []) waiting-IsValid refl refl

cancelled_task_completes_example :
    let w1 = (cancel_task 6 7 "a" taken).0 in
    let w2 = on_task_completed 9 "a" 7 false (on_task_started 8 "a" w1) in
    ((cancel_task 6 7 "a" taken).1 ≡ true)
    × (w1.queue ≡ taken.queue)
    × ((i : TaskInfo ℕ) × (get_task_info "a" w2 ≡ some i)
        × (i.status ≡ completed)
        × (i.result ≡ some 7))
    × ((a : ℕ)
        → find_open "a" taken.future_manager ≡ some a
        → at w2.future_manager.store a ≡ some (raised (task_error "Task cancelled" "a")))
unfolding program
cancelled_task_completes_example =
    cancelled_task_completes 6 7 8 9 "a" 7 taken (new_task "a" 0 []) refl refl refl

cancelled_running_fails_example :
    let w1 = (cancel_task 6 7 "a" at_work).0 in
    let e = task_cancellation_error "Task cancelled" (some "a") in
    let w2 = (process_end 9 "a" (outcome (fails e)) w1).0 in
    let info = mark_started 5 (new_task "a" 0 []) in
    ((cancel_task 6 7 "a" at_work).1 ≡ true)
    × (get_task_info "a" w1 ≡ some (cancelled_running 7 info))
    × (Dict.lookup "a" w1.worker_pool.task_to_worker ≡ some cancelling)
    × ((i : TaskInfo ℕ) × (get_task_info "a" w2 ≡ some i)
        × (i.status ≡ failed)
        × (i.error ≡ some (str e)))
    × (contains "a" w2.worker_pool.running_tasks ≡ false)
    × ((process_end 9 "a" (outcome (fails e)) w1).1 ≡ true)
unfolding program
cancelled_running_fails_example =
    cancelled_running_fails 6 7 9 "a" at_work (mark_started 5 (new_task "a" 0 [])) refl refl refl

abbrev late : ℕ
late = 2 * day

cleanup_removes_old_example :
    let w = (cancel_task 6 7 "a" waiting).0 in
    let w' = (cleanup_old_tasks late w).0 in
    ((t : String)
      → Dict.lookup t w'.tasks ≡ elim (Dict.lookup t w.tasks) [
        | none ↦ none
        | some info ↦ if ended_before late 1 info then none else some info
      ])
    × ((cleanup_old_tasks late w).1 + length w'.tasks ≡ length w.tasks)
unfolding program
cleanup_removes_old_example =
    cleanup_removes_old late 1 (cancel_task 6 7 "a" waiting).0 refl (refl, tt)

-- ===== src/Status/Tests.antt =====
-- The task states of src/async_task_worker/status.py on small inputs, and the theorems at these.
use async_task_worker.Base.{ℕ, ◌≡◌, refl, none, List, [], ◌∷◌}
use async_task_worker.Base.Int.{ℤ, pos, negsuc, abs, ◌-ℤ◌, ◌<ℤ◌}
use async_task_worker.Status.{
  one, cancelled, TaskInfo, new_task, update_progress, mark_started, mark_completed, mark_cancelled,
  get_current_progress,
}
use async_task_worker.Status.Progress.{InRange, updates, updates_lag}
use async_task_worker.Status.Lifecycle.{start, complete, cancel, run, IsStamped, life_stamps}

program : Unit {0}
unfolding new_task update_progress updates run mark_started mark_cancelled mark_completed abs ◌-ℤ◌
    get_current_progress
program = tt

abbrev info : TaskInfo ℕ
info = new_task "job" 5 []

-- The second report is throttled, and the third shows completion.
shown_late : (updates ((10, pos 500_000) ∷ (20, pos 510_000) ∷ []) info).progress ≡ pos 500_000
unfolding program
shown_late = refl

shown_one :
    (updates ((10, pos 500_000) ∷ (20, pos 510_000) ∷ (21, pos 2_000_000) ∷ []) info).progress ≡ one
unfolding program
shown_one = refl

cancelled_stays : (run (cancel 7 none ∷ complete 8 3 ∷ []) info).status ≡ cancelled
unfolding program
cancelled_stays = refl

abbrev reports : List (ℕ × ℤ)
reports = (10, pos 500_000) ∷ (20, pos 510_000) ∷ (21, negsuc 3) ∷ []

updates_lag_example :
    InRange (updates reports (new_task {V = ℕ} "job" 5 [])).progress
    × InRange (updates reports (new_task {V = ℕ} "job" 5 [])).current_progress
    × (abs (
          (updates reports (new_task {V = ℕ} "job" 5 [])).current_progress
          -ℤ (updates reports (new_task {V = ℕ} "job" 5 [])).progress)
        <ℤ pos 20_000)
updates_lag_example = updates_lag "job" 5 [] reports

life_stamps_example : IsStamped {V = ℕ} (run (start 6 ∷ complete 9 3 ∷ []) (new_task "job" 5 []))
life_stamps_example = life_stamps "job" 5 [] (start 6 ∷ complete 9 3 ∷ [])

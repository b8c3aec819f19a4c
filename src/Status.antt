-- ===== src/Status.antt =====
-- src/async_task_worker/status.py: `TaskStatus`, `ProgressUpdateStrategy` and `TaskInfo`.
-- A progress is a whole number of millionths, and a time a whole number of milliseconds. A critical
-- section under `_lock` is one step. `V` is the type of the values that the program calls `Any`.
mod Progress
mod Lifecycle
mod Tests
use async_task_worker.Base.{
  ℕ, suc, String, Bool, true, false, ◌&&◌, ◌||◌, not, Option, none, some, ◌==◌, if◌then◌else◌,
}
use async_task_worker.Base.Dict.{Dict}
use async_task_worker.Base.Int.{ℤ, pos, ◌-ℤ◌, ltb_ℤ, leb_ℤ, eqb_ℤ, abs}

pub data TaskStatus : Type 0 where
  pending running completed failed cancelled : TaskStatus

-- Equality of the members of the enumeration, through their positions.
abbrev pub status_code : TaskStatus → ℕ
status_code pending = 0
status_code running = 1
status_code completed = 2
status_code failed = 3
status_code cancelled = 4

-- 1.0
abbrev pub one : ℤ
one = pos 1_000_000

pub record ProgressUpdateStrategy : Type 0 where
  pub min_update_interval : ℕ
  pub min_progress_change : ℤ
  pub last_update_time : ℕ
  pub last_progress_value : ℤ

abbrev pub default_strategy : ProgressUpdateStrategy
default_strategy = record {
  min_update_interval = 100;
  min_progress_change = pos 20_000;
  last_update_time = 0;
  last_progress_value = pos 0;
}

unfoldable pub should_update : ℕ → ℤ → ProgressUpdateStrategy → Bool × ProgressUpdateStrategy
should_update now new_progress s =
    let time_since_update = pos now -ℤ pos s.last_update_time in
    let progress_change = abs (new_progress -ℤ s.last_progress_value) in
    let updated = record s { last_update_time = now; last_progress_value = new_progress } in
    if s.last_update_time == 0
    then (true, updated)
    else if eqb_ℤ new_progress one && not (eqb_ℤ s.last_progress_value one)
    then (true, updated)
    else if leb_ℤ (pos s.min_update_interval) time_since_update
        || leb_ℤ s.min_progress_change progress_change
    then (true, updated)
    else (false, s)

pub record TaskInfo (V : Type 0) : Type 0 where
  pub id : String
  pub status : TaskStatus
  pub created_at : ℕ
  pub started_at : Option ℕ
  pub completed_at : Option ℕ
  pub result : Option V
  pub error : Option String
  pub progress : ℤ
  pub metadata : Dict V
  pub from_cache : Bool
  pub progress_strategy : ProgressUpdateStrategy
  pub current_progress : ℤ

-- The bounds check of `validate_progress`, of `update_progress` and of the executor's callback.
unfoldable pub validate_progress : ℤ → ℤ
validate_progress v = if ltb_ℤ v (pos 0) then pos 0 else if ltb_ℤ one v then one else v

unfoldable pub is_terminal : TaskStatus → Bool
is_terminal completed = true
is_terminal failed = true
is_terminal cancelled = true
is_terminal pending = false
is_terminal running = false

abbrev pub max_ℤ : ℤ → ℤ → ℤ
max_ℤ a b = if ltb_ℤ a b then b else a

module _ {V : Type 0} where
  -- `TaskInfo(id=…, status=PENDING, created_at=now, metadata=…)`
  unfoldable pub new_task : String → ℕ → Dict V → TaskInfo V
  new_task id now metadata = record {
    id = id;
    status = pending;
    created_at = now;
    started_at = none;
    completed_at = none;
    result = none;
    error = none;
    progress = pos 0;
    metadata = metadata;
    from_cache = false;
    progress_strategy = default_strategy;
    current_progress = pos 0;
  }

  unfoldable pub is_terminal_state : TaskInfo V → Bool
  unfolding is_terminal
  is_terminal_state info = is_terminal info.status

  unfoldable pub update_progress : ℕ → ℤ → TaskInfo V → TaskInfo V
  unfolding validate_progress should_update
  update_progress now value info =
      let progress = validate_progress value in
      let (update, strategy) = should_update now progress info.progress_strategy in
      record info {
        current_progress = progress;
        progress_strategy = strategy;
        progress = if update then validate_progress progress else info.progress;
      }

  unfoldable pub mark_started : ℕ → TaskInfo V → TaskInfo V
  mark_started now info = record info { status = running; started_at = some now }

  unfoldable pub mark_completed : ℕ → V → TaskInfo V → TaskInfo V
  unfolding is_terminal_state
  mark_completed now result info = if is_terminal_state info then info else record info {
    status = completed;
    completed_at = some now;
    result = some result;
    current_progress = one;
    progress = one;
  }

  unfoldable pub mark_failed : ℕ → String → TaskInfo V → TaskInfo V
  mark_failed now error info = record info {
    status = failed;
    completed_at = some now;
    error = some error;
  }

  unfoldable pub mark_cancelled : ℕ → Option String → TaskInfo V → TaskInfo V
  mark_cancelled now reason info = record info {
    status = cancelled;
    completed_at = some now;
    error = reason;
  }

  unfoldable pub get_current_progress : TaskInfo V → ℤ
  get_current_progress info = max_ℤ info.progress info.current_progress

-- `to_dict`, as the record of its entries; the texts of `isoformat` stand for the times.
pub record TaskView (V : Type 0) : Type 0 where
  pub id : String
  pub status : String
  pub created_at : ℕ
  pub started_at : Option ℕ
  pub completed_at : Option ℕ
  pub result : Option V
  pub error : Option String
  pub progress : ℤ
  pub metadata : Dict V
  pub from_cache : Bool

unfoldable pub status_value : TaskStatus → String
status_value pending = "pending"
status_value running = "running"
status_value completed = "completed"
status_value failed = "failed"
status_value cancelled = "cancelled"

unfoldable pub to_dict : {V : Type 0} → TaskInfo V → TaskView V
unfolding status_value
to_dict info = record {
  id = info.id;
  status = status_value info.status;
  created_at = info.created_at;
  started_at = info.started_at;
  completed_at = info.completed_at;
  result = info.result;
  error = info.error;
  progress = max_ℤ info.progress info.current_progress;
  metadata = info.metadata;
  from_cache = info.from_cache;
}

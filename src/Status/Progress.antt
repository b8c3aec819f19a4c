-- ===== src/Status/Progress.antt =====
-- Progress reports of src/async_task_worker/status.py: bounds, and what throttling may hide.
use async_task_worker.Base.{
  ℕ, ◌≡◌, refl, Bool, true, false, List, [], ◌∷◌, arith, Bool-cases, String, inl, inr, ◌⊎◌,
  if◌then◌else◌, ◌∙◌, sym,
}
use async_task_worker.Base.Dict.{Dict}
use async_task_worker.Base.Int.{ℤ, pos, ◌-ℤ◌, ◌≤ℤ◌, ◌<ℤ◌, abs, eqb_ℤ, ltb_ℤ, eq_of_parts}
use async_task_worker.Status.{
  one, ProgressUpdateStrategy, should_update, TaskInfo, validate_progress, new_task,
  update_progress, get_current_progress, max_ℤ,
}

abbrev pub InRange : ℤ → Type 0
InRange p = (pos 0 ≤ℤ p) × (p ≤ℤ one)

-- The strategy knows the progress that is shown, and hides less than `change`.
pub record IsSynced {V : Type 0} (change : ℤ) (info : TaskInfo V) : Type 0 where
  pub threshold : info.progress_strategy.min_progress_change ≡ change
  pub last : info.progress_strategy.last_progress_value ≡ info.progress
  pub shown : InRange info.progress
  pub current : InRange info.current_progress
  pub lag : abs (info.current_progress -ℤ info.progress) <ℤ change

validate-InRange : (p : ℤ) → InRange (validate_progress p)
unfolding validate_progress
validate-InRange p = ground arith

validate_id : (p : ℤ) → InRange p → validate_progress p ≡ p
unfolding validate_progress
validate_id p h = ground arith

-- The two outcomes of the throttle.
abbrev Throttled : ℤ → ProgressUpdateStrategy → Bool × ProgressUpdateStrategy → Type 0
Throttled p s r =
    (r.1.min_progress_change ≡ s.min_progress_change)
    × (r.0 ≡ true → r.1.last_progress_value ≡ p)
    × (r.0 ≡ false
        → (r.1.last_progress_value ≡ s.last_progress_value)
          × (abs (p -ℤ s.last_progress_value) <ℤ s.min_progress_change))

should_update-Throttled :
    (now : ℕ) (p : ℤ) (s : ProgressUpdateStrategy) → Throttled p s (should_update now p s)
unfolding should_update
should_update-Throttled now p s = (ground arith, λ e. ground arith, λ e. ground arith)

abs_self : (p : ℤ) → abs (p -ℤ p) ≡ pos 0
unfolding abs ◌-ℤ◌
abs_self p = ground arith

update-IsSynced :
    {V : Type 0} (change : ℤ) (now : ℕ) (value : ℤ) (info : TaskInfo V)
    → pos 0 <ℤ change
    → IsSynced change info
    → IsSynced change (update_progress now value info)
unfolding update_progress
update-IsSynced change now value info positive s =
    let p = validate_progress value in
    let range : InRange p = validate-InRange value in
    let r = should_update now p info.progress_strategy in
    let t : Throttled p info.progress_strategy r =
      should_update-Throttled now p info.progress_strategy in
    elim (Bool-cases r.0) [
      | inl h ↦ record {
        threshold = t.0 ∙ s.threshold;
        last = rw h (t.1 h ∙ sym (validate_id p range));
        shown = rw (h, validate_id p range) range;
        current = range;
        lag = rw (h, validate_id p range) (rw (abs_self p) positive);
      }
      | inr h ↦ record {
        threshold = t.0 ∙ s.threshold;
        last = rw h ((t.2 h).0 ∙ s.last);
        shown = rw h s.shown;
        current = range;
        lag = rw (h, ← s.last, ← s.threshold) (t.2 h).1;
      }
    ]

-- A run of progress callbacks, each with the time of its call.
unfoldable pub updates : {V : Type 0} → List (ℕ × ℤ) → TaskInfo V → TaskInfo V
updates [] info = info
updates ((now, value) ∷ rest) info = updates rest (update_progress now value info)

updates-IsSynced :
    {V : Type 0} (change : ℤ) (reports : List (ℕ × ℤ)) (info : TaskInfo V)
    → pos 0 <ℤ change
    → IsSynced change info
    → IsSynced change (updates reports info)
unfolding updates
updates-IsSynced change [] info positive s = s
updates-IsSynced change ((now, value) ∷ rest) info positive s =
    updates-IsSynced change rest _ positive (update-IsSynced change now value info positive s)

pub new-IsSynced :
    {V : Type 0} (id : String) (now : ℕ) (metadata : Dict V)
    → IsSynced (pos 20_000) (new_task id now metadata)
unfolding new_task abs ◌-ℤ◌
new-IsSynced id now metadata = record {
  threshold = refl;
  last = refl;
  shown = omega arith;
  current = omega arith;
  lag = omega arith;
}

-- After any progress reports on a new task the shown and the current progress lie between 0 and 1,
-- and differ by less than 0.02, whatever values and times were reported.
pub updates_lag :
    {V : Type 0} (id : String) (created : ℕ) (metadata : Dict V) (reports : List (ℕ × ℤ))
    → InRange (updates reports (new_task id created metadata)).progress
      × InRange (updates reports (new_task id created metadata)).current_progress
      × (abs (
            (updates reports (new_task id created metadata)).current_progress
            -ℤ (updates reports (new_task id created metadata)).progress)
          <ℤ pos 20_000)
updates_lag id created metadata reports =
    let s =
      updates-IsSynced (pos 20_000) reports (new_task id created metadata) (omega arith)
        (new-IsSynced id created metadata) in
    (s.shown, s.current, s.lag)

should_update-one :
    (now : ℕ) (s : ProgressUpdateStrategy)
    → ((should_update now one s).0 ≡ true) ⊎ (s.last_progress_value ≡ one)
unfolding should_update
should_update-one now s = elim (Bool-cases (eqb_ℤ s.last_progress_value one)) [
  | inl h ↦ inr (eq_of_parts s.last_progress_value one (ground arith))
  | inr h ↦ inl (ground arith)
]

validate_one : (v : ℤ) → one ≤ℤ v → validate_progress v ≡ one
unfolding validate_progress
validate_one v h = elim (Bool-cases (ltb_ℤ one v)) [
  | inl k ↦ ground arith
  | inr k ↦ rw (eq_of_parts v one (ground arith)) refl
]

abbrev shown_after : {V : Type 0} → ℕ → TaskInfo V → ℤ
shown_after now info =
    if (should_update now one info.progress_strategy).0
    then validate_progress one
    else info.progress

shown_one :
    {V : Type 0} (now : ℕ) (info : TaskInfo V)
    → info.progress ≡ one
    → (shown_after now info ≡ one) × (max_ℤ (shown_after now info) one ≡ one)
shown_one now info e = elim (Bool-cases (should_update now one info.progress_strategy).0) [
  | inl u ↦ rw (u, validate_one one (omega arith)) (refl, refl)
  | inr u ↦ rw (u, e) (refl, refl)
]

-- A report of completion (1 or more) is never throttled: the shown progress becomes 1 at once.
pub update_complete :
    {V : Type 0} (change : ℤ) (now : ℕ) (value : ℤ) (info : TaskInfo V)
    → IsSynced change info
    → one ≤ℤ value
    → ((update_progress now value info).progress ≡ one)
      × (get_current_progress (update_progress now value info) ≡ one)
unfolding update_progress get_current_progress
update_complete change now value info s h =
    let e : validate_progress value ≡ one = validate_one value h in
    let id : validate_progress one ≡ one = validate_one one (omega arith) in
    elim (should_update-one now info.progress_strategy) [
      | inl u ↦ rw (e, u, id) (refl, refl)
      | inr l ↦ rw e (shown_one now info (sym s.last ∙ l))
    ]

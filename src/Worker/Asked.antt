-- ===== src/Worker/Asked.antt =====
-- src/async_task_worker/core.py: the futures that `wait_for_any_task` asks for.
use async_task_worker.Base.{
  ℕ, String, ◌≡◌, ◌≢◌, refl, sym, ap, ◌∙◌, true, Option, none, some, List, [], ◌∷◌, All, arith,
  Option-cases, Bool-cases, inl, inr, str_dec, if_pos,
}
use mathlib.Core.Path.{subst}
use async_task_worker.Base.Dict
use async_task_worker.Base.Dict.{contains, has}
use async_task_worker.Futures
use async_task_worker.Futures.{Future, open_future, resolved, raised, withdrawn}
use async_task_worker.Worker.{Worker}
use async_task_worker.Worker.Maintenance.{get_task_future}
use async_task_worker.Worker.Waits.{
  Waited, results, map_futures, done_futures, result_of, no_task_ids,
}
use async_task_worker.Worker.Fetched.{get_task_future-known}

pub All-done :
    {V : Type 0} (P : ℕ × String → Type 0) (future : ℕ → Option (Future V)) (fs : List (ℕ × String))
    → All P fs
    → All P (done_futures future fs)
unfolding done_futures
All-done P future [] h = tt
All-done P future ((a, t) ∷ fs) (h, hs) = elim (Option-cases (future a)) [
  | inl e ↦ rw (e, done_futures) (All-done P future fs hs)
  | inr (f, e) ↦ elim (Bool-cases (Futures.is_open f)) [
    | inl o ↦ rw (e, done_futures, o) (All-done P future fs hs)
    | inr d ↦ rw (e, done_futures, d) (h, All-done P future fs hs)
  ]
]

pub some_inj : {R : Type 0} {x y : R} → some x ≡ some y → x ≡ y
some_inj e = cc

pair_inj :
    {R T : Type 0} {x x' : R} {y y' : T}
    → ◌≡◌ {A = R × Option T} (x, some y) (x', some y')
    → ◌≡◌ {A = R × T} (x, y) (x', y')
pair_inj e = cc

pub results_inj : {R : Type 0} {x y : R} → results x ≡ results y → x ≡ y
results_inj e = cc

pub unanswered : {R : Type 0} {x : R} → ◌≢◌ {A = Waited R} no_task_ids (results x)
unanswered e = cc

pub none-ne-some : {R : Type 0} {x : R} → ◌≢◌ {A = Option R} none (some x)
none-ne-some e = cc

pub result_of-results :
    {V : Type 0} (f : Option (Future V)) (i t : String) (v : V)
    → result_of f i ≡ results (v, t)
    → (i ≡ t) × (f ≡ some (resolved v))
result_of-results none i t v h = cc
result_of-results (some open_future) i t v h = cc
result_of-results (some (resolved u)) i t v h = (cc (h), cc (h))
result_of-results (some (raised e)) i t v h = cc
result_of-results (some withdrawn) i t v h = cc

has_more :
    (i : String) (is js : List String)
    → All (λ t. has t is ≡ true) js
    → All (λ t. has t (i ∷ is) ≡ true) js
has_more i is [] h = tt
has_more i is (j ∷ js) (h, hs) = (ground (arith, h), has_more i is js hs)

pub asks_each : (ids : List String) → All (λ t. has t ids ≡ true) ids
asks_each [] = tt
asks_each (i ∷ is) = (if_pos (str_dec i i) refl true (has i is), has_more i is is (asks_each is))

module _ {V F A : Type 0} (null : V) where
  get_task_future-unknown :
      (t : String) (w : Worker V F A)
      → Dict.lookup t w.tasks ≡ none
      → get_task_future null t w ≡ none
  unfolding get_task_future
  get_task_future-unknown t w h = rw (h, get_task_future)

  get_task_future-some :
      (t : String) (w w' : Worker V F A) (a : ℕ)
      → get_task_future null t w ≡ some (w', a)
      → (Dict.lookup t w'.task_futures ≡ some a)
        × ((j : String) (b : ℕ)
            → Dict.lookup j w.task_futures ≡ some b
            → Dict.lookup j w'.task_futures ≡ some b)
  get_task_future-some t w w' a h = elim (Bool-cases (contains t w.tasks)) [
    | inl known ↦
        let (w1, b, e, found, same, keeps) = get_task_future-known null t w known in
        subst
          (λ (p : Worker V F A × ℕ).
            (Dict.lookup t p.0.task_futures ≡ some p.1)
            × ((j : String) (c : ℕ)
                → Dict.lookup j w.task_futures ≡ some c
                → Dict.lookup j p.0.task_futures ≡ some c))
          (some_inj (sym e ∙ h)) (found, keeps)
    | inr unknown ↦
        absurd (none-ne-some (sym (get_task_future-unknown t w (ground (arith, unknown))) ∙ h))
  ]

  -- Each future that was fetched is the one of a task of the list.
  abbrev pub Asked : List String → Worker V F A → ℕ × String → Type 0
  Asked ids w (a, t) = (has t ids ≡ true) × (Dict.lookup t w.task_futures ≡ some a)

  Asked-keeps :
      (ids : List String) (w w' : Worker V F A) (fs : List (ℕ × String))
      → ((j : String) (b : ℕ)
          → Dict.lookup j w.task_futures ≡ some b
          → Dict.lookup j w'.task_futures ≡ some b)
      → All (Asked ids w) fs
      → All (Asked ids w') fs
  Asked-keeps ids w w' [] keeps h = tt
  Asked-keeps ids w w' ((a, t) ∷ fs) keeps ((here, found), hs) =
      ((here, keeps t a found), Asked-keeps ids w w' fs keeps hs)

  map_futures-none :
      (t : String) (ts : List String) (acc : List (ℕ × String)) (w : Worker V F A)
      → get_task_future null t w ≡ none
      → map_futures null (t ∷ ts) acc w ≡ (w, none)
  unfolding map_futures
  map_futures-none t ts acc w h = rw (h, map_futures)

  map_futures-some :
      (t : String) (ts : List String) (acc : List (ℕ × String)) (w w1 : Worker V F A) (a : ℕ)
      → get_task_future null t w ≡ some (w1, a)
      → map_futures null (t ∷ ts) acc w ≡ map_futures null ts ((a, t) ∷ acc) w1
  unfolding map_futures
  map_futures-some t ts acc w w1 a h = rw (h, map_futures)

  pub map_futures-Asked :
      (ids ts : List String) (acc : List (ℕ × String)) (w w' : Worker V F A)
      (fs : List (ℕ × String))
      → All (λ t. has t ids ≡ true) ts
      → All (Asked ids w) acc
      → map_futures null ts acc w ≡ (w', some fs)
      → All (Asked ids w') fs
  unfolding map_futures
  map_futures-Asked ids [] acc w w' fs k h e =
      subst (λ (p : Worker V F A × List (ℕ × String)). All (Asked ids p.0) p.1) (pair_inj e) h
  map_futures-Asked ids (t ∷ ts) acc w w' fs (k, ks) h e =
      elim (Option-cases (get_task_future null t w)) [
        | inl n ↦ absurd (
            none-ne-some (
              ap (λ (p : Worker V F A × Option (List (ℕ × String))). p.1)
                (sym (map_futures-none t ts acc w n) ∙ e)))
        | inr ((w1, a), g) ↦
            let (found, keeps) = get_task_future-some t w w1 a g in
            map_futures-Asked ids ts ((a, t) ∷ acc) w1 w' fs ks
              ((k, found), Asked-keeps ids w w1 acc keeps h)
              (sym (map_futures-some t ts acc w w1 a g) ∙ e)
      ]

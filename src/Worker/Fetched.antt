-- ===== src/Worker/Fetched.antt =====
-- src/async_task_worker/core.py: the tasks that `wait_for_tasks` waits for, and their futures.
use async_task_worker.Base.{
  ℕ, suc, String, ◌≡◌, refl, ap, ◌∙◌, true, Option, none, some, List, [], ◌∷◌, ◌++◌, length, arith,
  Option-cases, inl, inr, str_dec, if_pos, if_neg, if◌then◌else◌,
}
use async_task_worker.Base.Dict
use async_task_worker.Base.Dict.{contains, has}
use async_task_worker.Status.{TaskInfo, is_terminal_state}
use async_task_worker.Futures
use async_task_worker.Futures.{Future, resolved}
use async_task_worker.Worker.{Worker}
use async_task_worker.Worker.Maintenance.{get_task_future}
use async_task_worker.Worker.Waits.{
  results, set, completed_result, await_each, sort_out, get_futures,
}

pub set-middle :
    {A : Type 0} (xs ys : List A) (x v : A) → set (xs ++ x ∷ ys) (length xs) v ≡ xs ++ v ∷ ys
unfolding set
set-middle [] ys x v = refl
set-middle (y ∷ xs) ys x v = ap (λ zs. y ∷ zs) (set-middle xs ys x v)

lookup-insert_kept :
    (t j : String) (a b : ℕ) (m : Dict.Dict ℕ)
    → Dict.lookup t m ≡ none
    → Dict.lookup j m ≡ some b
    → Dict.lookup j (Dict.insert t a m) ≡ some b
lookup-insert_kept t j a b m new h = elim (str_dec j t) [
  | yes e ↦ cc (new, h, ap (λ i. Dict.lookup i m) e)
  | no d ↦ Dict.lookup-insert t j a m ∙ if_neg (str_dec j t) d (some a) (Dict.lookup j m) ∙ h
]

pub await_each-nil :
    {V : Type 0} (timeout : Option ℕ) (future : ℕ → Option (Future V)) (rs : List V)
    → await_each timeout future [] rs ≡ results rs
unfolding await_each
await_each-nil timeout future rs = refl

pub await_each-step :
    {V : Type 0} (timeout : Option ℕ) (future : ℕ → Option (Future V)) (i a : ℕ) (fs : List (ℕ × ℕ))
    (v : V) (rs : List V)
    → future a ≡ some (resolved v)
    → await_each timeout future ((i, a) ∷ fs) rs ≡ await_each timeout future fs (set rs i v)
unfolding await_each
await_each-step timeout future i a fs v rs h = rw (h, await_each)

module _ {V F A : Type 0} (null : V) where
  -- The future that stands for the task in the weak dictionary.
  abbrev pub future_of : Worker V F A → (ℕ → Option (Future V)) → String → Option (Future V)
  future_of w future t = elim (Dict.lookup t w.task_futures) [ none ↦ none | some a ↦ future a ]

  -- The worker after a new future was stored for a task.
  abbrev tracked : String → TaskInfo V → Worker V F A → Worker V F A
  tracked t info w =
      let (m, a) = Futures.get_future t w.future_manager in
      record w {
        task_futures = Dict.insert t a w.task_futures;
        future_manager =
            if is_terminal_state info then Futures.complete_from_task_info null t info m else m;
      }

  pub get_task_future-known :
      (t : String) (w : Worker V F A)
      → contains t w.tasks ≡ true
      → (w' : Worker V F A) × (a : ℕ) × (get_task_future null t w ≡ some (w', a))
        × (Dict.lookup t w'.task_futures ≡ some a)
        × (w'.tasks ≡ w.tasks)
        × ((j : String) (b : ℕ)
            → Dict.lookup j w.task_futures ≡ some b
            → Dict.lookup j w'.task_futures ≡ some b)
  unfolding get_task_future
  get_task_future-known t w h = elim (Option-cases (Dict.lookup t w.tasks)) [
    | inl e ↦ cc (h, e)
    | inr (info, e) ↦ elim (Option-cases (Dict.lookup t w.task_futures)) [
      | inl new ↦
          let a = (Futures.get_future t w.future_manager).1 in
          (
            tracked t info w,
            a,
            rw (e, new, get_task_future),
            Dict.lookup-insert t t a w.task_futures
                ∙ if_pos (str_dec t t) refl (some a) (Dict.lookup t w.task_futures),
            refl,
            λ j b k. lookup-insert_kept t j a b w.task_futures new k,
          )
      | inr (a, old) ↦ (w, a, rw (e, old, get_task_future), old, refl, λ j b k. k)
    ]
  ]

  -- Each future that was fetched is the one of its task.
  abbrev pub Fetched : Worker V F A → List (ℕ × String) → List (ℕ × ℕ) → Type 0
  Fetched w [] [] = Unit
  Fetched w [] (f ∷ fs) = ⊥
  Fetched w (p ∷ ps) [] = ⊥
  Fetched w ((i, t) ∷ ps) ((j, a) ∷ fs) =
      (i ≡ j) × (Dict.lookup t w.task_futures ≡ some a) × Fetched w ps fs

  abbrev pub Known : List (ℕ × String) → Worker V F A → Type 0
  Known [] w = Unit
  Known ((i, t) ∷ ps) w = (contains t w.tasks ≡ true) × Known ps w

  Known-tasks :
      (ps : List (ℕ × String)) (w w' : Worker V F A) → w'.tasks ≡ w.tasks → Known ps w → Known ps w'
  Known-tasks [] w w' e k = tt
  Known-tasks ((i, t) ∷ ps) w w' e k = (ap (λ m. contains t m) e ∙ k.0, Known-tasks ps w w' e k.1)

  pub get_futures-Known :
      (ps : List (ℕ × String)) (w : Worker V F A)
      → Known ps w
      → (w' : Worker V F A) × (fs : List (ℕ × ℕ)) × (get_futures null ps w ≡ (w', some fs))
        × Fetched w' ps fs
        × ((j : String) (b : ℕ)
            → Dict.lookup j w.task_futures ≡ some b
            → Dict.lookup j w'.task_futures ≡ some b)
  unfolding get_futures
  get_futures-Known [] w k = (w, [], refl, tt, λ j b h. h)
  get_futures-Known ((i, t) ∷ ps) w (k, ks) =
      let (w1, a, e, found, same, keeps) = get_task_future-known t w k in
      let (w2, fs, e2, fetched, keeps2) = get_futures-Known ps w1 (Known-tasks ps w w1 same ks) in
      (
        w2,
        (i, a) ∷ fs,
        rw (e, get_futures, e2),
        (refl, keeps2 t a found, fetched),
        λ j b h. keeps2 j b (keeps j b h),
      )

  -- What the caller of `wait_for_tasks` is to get for a task.
  abbrev pub expected : Worker V F A → (String → V) → String → V
  expected w value t = elim (completed_result null (Dict.lookup t w.tasks)) [
    | none ↦ value t
    | some v ↦ v
  ]

  -- Each task that is not completed has a future that was resolved with its value.
  abbrev pub Resolved :
      List String → Worker V F A → Worker V F A → (ℕ → Option (Future V)) → (String → V) → Type 0
  Resolved ids w w' future value =
      (t : String)
      → has t ids ≡ true
      → completed_result null (Dict.lookup t w.tasks) ≡ none
      → future_of w' future t ≡ some (resolved (value t))

  pub Resolved-tail :
      (t : String) (ids : List String) (w w' : Worker V F A) (future : ℕ → Option (Future V))
      (value : String → V)
      → Resolved (t ∷ ids) w w' future value
      → Resolved ids w w' future value
  Resolved-tail t ids w w' future value r j h = r j (ground (arith, h))

  pub expected-completed :
      (w : Worker V F A) (value : String → V) (t : String) (v : V)
      → completed_result null (Dict.lookup t w.tasks) ≡ some v
      → expected w value t ≡ v
  expected-completed w value t v h = rw (h, expected)

  pub expected-pending :
      (w : Worker V F A) (value : String → V) (t : String)
      → completed_result null (Dict.lookup t w.tasks) ≡ none
      → expected w value t ≡ value t
  expected-pending w value t h = rw (h, expected)

  pub sort_out-nil : (i : ℕ) (w : Worker V F A) → ([], []) ≡ sort_out null [] i w
  unfolding sort_out
  sort_out-nil i w = refl

  pub sort_out-completed :
      (t : String) (ts : List String) (i : ℕ) (w : Worker V F A) (v : V)
      → completed_result null (Dict.lookup t w.tasks) ≡ some v
      → sort_out null (t ∷ ts) i w
        ≡ (v ∷ (sort_out null ts (suc i) w).0, (sort_out null ts (suc i) w).1)
  unfolding sort_out
  sort_out-completed t ts i w v h = rw (h, sort_out)

  pub sort_out-pending :
      (t : String) (ts : List String) (i : ℕ) (w : Worker V F A)
      → completed_result null (Dict.lookup t w.tasks) ≡ none
      → sort_out null (t ∷ ts) i w
        ≡ (null ∷ (sort_out null ts (suc i) w).0, (i, t) ∷ (sort_out null ts (suc i) w).1)
  unfolding sort_out
  sort_out-pending t ts i w h = rw (h, sort_out)

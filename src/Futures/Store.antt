-- ===== src/Futures/Store.antt =====
-- The store of futures behind src/async_task_worker/futures.py: reads after writes, and what the
-- search for an open future finds.
use async_task_worker.Base.{
  ℕ, zero, suc, ◌<◌, String, ◌≡◌, true, false, Option, none, some, List, [], ◌∷◌, ◌++◌, arith,
  length, if◌then◌else◌, ◌==◌,
}
use async_task_worker.Base.Dict
use async_task_worker.Futures.{Future, open_future, is_open, Manager, at, write, find_open}

module _ {V : Type 0} where
  abbrev pub overwrite : Option (Future V) → Future V → Option (Future V)
  overwrite none g = none
  overwrite (some f) g = some g

  pub at-write :
      (s : List (Future V)) (a b : ℕ) (g : Future V)
      → at (write s a g) b ≡ (if a == b then overwrite (at s b) g else at s b)
  at-write [] a b g = ground arith
  at-write (f ∷ fs) zero zero g = ground arith
  at-write (f ∷ fs) zero (suc b) g = ground arith
  at-write (f ∷ fs) (suc a) zero g = ground arith
  at-write (f ∷ fs) (suc a) (suc b) g = ground (arith, at-write fs a b g)

  pub at-append :
      (s : List (Future V)) (b : ℕ) (g : Future V)
      → at (s ++ g ∷ []) b ≡ (if b == length s then some g else at s b)
  at-append [] zero g = ground arith
  at-append [] (suc b) g = ground arith
  at-append (f ∷ fs) zero g = ground arith
  at-append (f ∷ fs) (suc b) g = ground (arith, at-append fs b g)

  pub at-lt : (s : List (Future V)) (a : ℕ) {f : Future V} → at s a ≡ some f → a < length s
  at-lt [] a h = cc
  at-lt (f ∷ fs) zero h = omega arith
  at-lt (f ∷ fs) (suc a) h = omega (arith, at-lt fs a h)

  pub open_eq : (f : Future V) → is_open f ≡ true → f ≡ open_future
  open_eq f h = ground arith

  pub find_open-some :
      (t : String) (m : Manager V) (a : ℕ)
      → find_open t m ≡ some a
      → (Dict.lookup t m.futures ≡ some a) × (at m.store a ≡ some open_future)
  unfolding find_open
  find_open-some t m a h = ground arith

  pub find_open-none :
      (t : String) (m : Manager V) (a : ℕ) (f : Future V)
      → find_open t m ≡ none
      → Dict.lookup t m.futures ≡ some a
      → at m.store a ≡ some f
      → is_open f ≡ false
  unfolding find_open
  find_open-none t m a f h l k = ground arith

  pub find_open-open_future :
      (t : String) (m : Manager V) (a : ℕ)
      → Dict.lookup t m.futures ≡ some a
      → at m.store a ≡ some open_future
      → find_open t m ≡ some a
  unfolding find_open
  find_open-open_future t m a l k = ground arith

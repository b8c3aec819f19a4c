-- ===== src/Queue/Live.antt =====
-- The items of the queue that are not cancelled: what a reader of
-- src/async_task_worker/queue.py would call the waiting tasks.
use async_task_worker.Base.{
  suc, String, ◌≡◌, refl, true, false, inl, inr, List, [], ◌∷◌, All, arith, length, str_dec, ite,
  Bool-cases, if◌then◌else◌, str_lt_split, sym,
}
use async_task_worker.Base.Dict
use async_task_worker.Base.Dict.{Set, add, contains}
use async_task_worker.Queue.Heap.{Item, item_lt, push, has_id}
use async_task_worker.Queue.Order.{NotBelow, IsSorted}

module _ {J : Type 0} where
  unfoldable pub live : Set → List (Item J) → List (Item J)
  live c [] = []
  live c (x ∷ xs) = let rest = live c xs in if contains x.task_id c then rest else x ∷ rest

  unfoldable pub without : String → List (Item J) → List (Item J)
  without t [] = []
  without t (x ∷ xs) = let rest = without t xs in ite (str_dec t x.task_id) rest (x ∷ rest)

  -- No two items have one task id.
  abbrev pub IsDistinct : List (Item J) → Type 0
  IsDistinct [] = Unit
  IsDistinct (x ∷ xs) = (has_id x.task_id xs ≡ false) × IsDistinct xs

  pub has_id-push :
      (t : String) (x : Item J) (xs : List (Item J))
      → has_id t (push x xs) ≡ ite (str_dec t x.task_id) true (has_id t xs)
  unfolding push
  has_id-push t x [] = refl
  has_id-push t x (y ∷ ys) = ground (arith, has_id-push t x ys)

  pub length-push : (x : Item J) (xs : List (Item J)) → length (push x xs) ≡ suc (length xs)
  unfolding push
  length-push x [] = refl
  length-push x (y ∷ ys) = ground (arith, length-push x ys)

  pub push-IsDistinct :
      (x : Item J) (xs : List (Item J))
      → has_id x.task_id xs ≡ false
      → IsDistinct xs
      → IsDistinct (push x xs)
  unfolding push
  push-IsDistinct x [] h d = (refl, tt)
  push-IsDistinct x (y ∷ ys) h d = elim (Bool-cases (item_lt x y)) [
    | inl k ↦ rw k (h, d)
    | inr k ↦
        rw k (ground (arith, has_id-push y.task_id x ys), push-IsDistinct x ys (ground arith) d.1)
  ]

  item_lt_trans : (x y z : Item J) → item_lt x y ≡ true → NotBelow y z → item_lt x z ≡ true
  unfolding item_lt
  item_lt_trans x y z h k = ground (arith, str_lt_split x.task_id z.task_id y.task_id)

  -- An item that comes before all others is put in front.
  push_first :
      (x y : Item J) (c : Set) (ys : List (Item J))
      → item_lt x y ≡ true
      → All (NotBelow y) ys
      → push x (live c ys) ≡ x ∷ live c ys
  unfolding push live
  push_first x y c [] h s = refl
  push_first x y c (z ∷ zs) h s = ground (arith, item_lt_trans x y z, push_first x y c zs h s.1)

  pub live-push :
      (c : Set) (x : Item J) (xs : List (Item J))
      → contains x.task_id c ≡ false
      → IsSorted xs
      → live c (push x xs) ≡ push x (live c xs)
  unfolding live push
  live-push c x [] h s = rw h
  live-push c x (y ∷ ys) h s = elim (Bool-cases (item_lt x y)) [
    | inl k ↦ elim (Bool-cases (contains y.task_id c)) [
      | inl gone ↦ rw (k, h, gone) (sym (push_first x y c ys k s.0))
      | inr kept ↦ rw (k, h, kept, k)
    ]
    | inr k ↦ ground (arith, live-push c x ys h s.1)
  ]

  pub live-add :
      (c : Set) (t : String) (xs : List (Item J)) → live (add t c) xs ≡ without t (live c xs)
  unfolding live without
  live-add c t [] = refl
  live-add c t (x ∷ xs) = ground (arith, live-add c t xs, Dict.lookup-insert t x.task_id tt c)

  pub live-delete :
      (c : Set) (t : String) (xs : List (Item J))
      → has_id t xs ≡ false
      → live (Dict.delete t c) xs ≡ live c xs
  unfolding live
  live-delete c t [] h = refl
  live-delete c t (x ∷ xs) h = ground (arith, live-delete c t xs, Dict.lookup-delete t x.task_id c)

  pub has_id-live :
      (t : String) (c : Set) (xs : List (Item J))
      → has_id t (live c xs) ≡ (if contains t c then false else has_id t xs)
  unfolding live
  has_id-live t c [] = ground arith
  has_id-live t c (x ∷ xs) = ground (arith, has_id-live t c xs)

  pub has_id-without :
      (t j : String) (xs : List (Item J))
      → has_id j (without t xs) ≡ ite (str_dec j t) false (has_id j xs)
  unfolding without
  has_id-without t j [] = ground arith
  has_id-without t j (x ∷ xs) = ground (arith, has_id-without t j xs)

  pub live-IsDistinct : (c : Set) (xs : List (Item J)) → IsDistinct xs → IsDistinct (live c xs)
  unfolding live
  live-IsDistinct c [] d = tt
  live-IsDistinct c (x ∷ xs) d = elim (Bool-cases (contains x.task_id c)) [
    | inl k ↦ rw k (live-IsDistinct c xs d.1)
    | inr k ↦ rw k (ground (arith, has_id-live x.task_id c xs), live-IsDistinct c xs d.1)
  ]

  pub without_absent : (t : String) (xs : List (Item J)) → has_id t xs ≡ false → without t xs ≡ xs
  unfolding without
  without_absent t [] h = refl
  without_absent t (x ∷ xs) h = ground (arith, without_absent t xs)

  pub length-without :
      (t : String) (xs : List (Item J))
      → IsDistinct xs
      → has_id t xs ≡ true
      → suc (length (without t xs)) ≡ length xs
  unfolding without
  length-without t [] d h = cc
  length-without t (x ∷ xs) d h = ground (arith, length-without t xs d.1, without_absent t xs)

  pub All-live : (P : Item J → Type 0) (c : Set) (xs : List (Item J)) → All P xs → All P (live c xs)
  unfolding live
  All-live P c [] h = tt
  All-live P c (x ∷ xs) h = elim (Bool-cases (contains x.task_id c)) [
    | inl k ↦ rw k (All-live P c xs h.1)
    | inr k ↦ rw k (h.0, All-live P c xs h.1)
  ]

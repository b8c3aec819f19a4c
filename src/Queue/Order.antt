-- ===== src/Queue/Order.antt =====
-- The order of the items in the queue of src/async_task_worker/queue.py.
use async_task_worker.Base.{
  ◌≡◌, true, false, inl, inr, List, [], ◌∷◌, All, All-map, arith, str_lt, str_lt_irrefl,
  str_lt_split, str_lt_trans, Bool-cases, if◌then◌else◌,
}
use async_task_worker.Queue.Heap.{Item, item_lt, push}

-- `y` need not come before `x`.
abbrev pub NotBelow : {J : Type 0} → Item J → Item J → Type 0
NotBelow x y = item_lt y x ≡ false

abbrev pub IsSorted : {J : Type 0} → List (Item J) → Type 0
IsSorted [] = Unit
IsSorted (x ∷ xs) = All (NotBelow x) xs × IsSorted xs

module _ {J : Type 0} where
  item_lt_asym : (x y : Item J) → item_lt x y ≡ true → item_lt y x ≡ false
  unfolding item_lt
  item_lt_asym x y h = elim (Bool-cases (str_lt y.task_id x.task_id)) [
    | inl k ↦ ground (arith, str_lt_trans x.task_id y.task_id x.task_id, str_lt_irrefl x.task_id)
    | inr k ↦ ground arith
  ]

  NotBelow-trans : (x y z : Item J) → NotBelow x y → NotBelow y z → NotBelow x z
  unfolding item_lt
  NotBelow-trans x y z h k = ground (arith, str_lt_split z.task_id y.task_id x.task_id)

  All-push :
      (P : Item J → Type 0) (x : Item J) (xs : List (Item J)) → P x → All P xs → All P (push x xs)
  unfolding push
  All-push P x [] p h = (p, tt)
  All-push P x (y ∷ ys) p h =
      elim (item_lt x y) as (λ b. All P (if b then x ∷ y ∷ ys else y ∷ push x ys)) [
        | true ↦ (p, h)
        | false ↦ (h.0, All-push P x ys p h.1)
      ]

  pub push-IsSorted : (x : Item J) (xs : List (Item J)) → IsSorted xs → IsSorted (push x xs)
  unfolding push
  push-IsSorted x [] s = (tt, tt)
  push-IsSorted x (y ∷ ys) s = elim (Bool-cases (item_lt x y)) [
    | inl h ↦ rw h (
      (
        item_lt_asym x y h,
        All-map (NotBelow y) (NotBelow x) ys (λ z k. NotBelow-trans x y z (item_lt_asym x y h) k)
            s.0,
      ),
      s,
    )
    | inr h ↦ rw h (All-push (NotBelow y) x ys h s.0, push-IsSorted x ys s.1)
  ]

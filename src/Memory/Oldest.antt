-- ===== src/Memory/Oldest.antt =====
-- The victim of the eviction in src/async_cache/adapters/memory.py.
use async_task_worker.Base.{
  ℕ, ◌≤◌, String, ◌≡◌, refl, none, some, [], ◌∷◌, arith, Bool-cases, inl, inr, ltb, str_dec, if_pos,
  if_neg,
}
use mathlib.Core.Path.{subst}
use async_task_worker.Base.Dict
use async_task_worker.Base.Dict.{Dict, contains}
use async_task_worker.Memory.{oldest, oldest_from}

-- The keys of a dictionary are distinct, as Python's are.
abbrev pub IsDict {ℓ} : {A : Type ℓ} → Dict A → Type ℓ
IsDict [] = Unit
IsDict ((k, v) ∷ rest) = (Dict.lookup k rest ≡ none) × IsDict rest

pub insert-IsDict {ℓ} :
    {A : Type ℓ} (k : String) (v : A) (d : Dict A) → IsDict d → IsDict (Dict.insert k v d)
unfolding Dict.insert Dict.lookup
insert-IsDict k v [] h = (refl, tt)
insert-IsDict k v ((j, w) ∷ rest) h = elim (str_dec k j) [
  | yes p ↦ rw (if_pos _ p) (rw p h.0, h.1)
  | no p ↦
      rw (if_neg _ p)
        (ground (arith, Dict.lookup-insert k j v rest, h.0), insert-IsDict k v rest h.1)
]

pub delete-IsDict {ℓ} : {A : Type ℓ} (k : String) (d : Dict A) → IsDict d → IsDict (Dict.delete k d)
unfolding Dict.delete Dict.lookup
delete-IsDict k [] h = tt
delete-IsDict k ((j, w) ∷ rest) h = elim (str_dec k j) [
  | yes p ↦ rw (if_pos _ p) (delete-IsDict k rest h.1)
  | no p ↦
      rw (if_neg _ p) (ground (arith, Dict.lookup-delete k j rest, h.0), delete-IsDict k rest h.1)
]

-- The time `u` of the key `v` is no later than that of any key of `d`.
pub record IsOldest (v : String) (d : Dict ℕ) : Type 0 where
  pub time : ℕ
  pub found : Dict.lookup v d ≡ some time
  pub least : (j : String) (w : ℕ) → Dict.lookup j d ≡ some w → time ≤ w

oldest_from-IsOldest :
    (k : String) (t : ℕ) (d : Dict ℕ)
    → IsDict ((k, t) ∷ d)
    → IsOldest (oldest_from k t d) ((k, t) ∷ d)
unfolding oldest_from Dict.lookup
oldest_from-IsOldest k t [] h = record {
  time = t;
  found = ground arith;
  least = λ j w l. ground arith;
}
oldest_from-IsOldest k t ((j, s) ∷ rest) h = elim (Bool-cases (ltb s t)) [
  | inl e ↦
      let o = oldest_from-IsOldest j s rest h.1 in
      rw e (record {
        time = o.time;
        found = ground (arith, o.found, h.0);
        least = λ i w l. ground (arith, o.least i w, o.least j s);
      })
  | inr e ↦
      let o = oldest_from-IsOldest k t rest (ground (arith, h.0), h.1.1) in
      rw e (record {
        time = o.time;
        found = ground (arith, o.found, h.0, h.1.0);
        least = λ i w l. ground (arith, o.least i w, o.least k t);
      })
]

pub oldest-IsOldest : (d : Dict ℕ) (v : String) → IsDict d → oldest d ≡ some v → IsOldest v d
unfolding oldest
oldest-IsOldest [] v h e = cc
oldest-IsOldest ((k, t) ∷ rest) v h e =
    let p : oldest_from k t rest ≡ v = cc in
    subst (λ w. IsOldest w ((k, t) ∷ rest)) p (oldest_from-IsOldest k t rest h)

pub oldest-none : (d : Dict ℕ) → oldest d ≡ none → d ≡ []
unfolding oldest
oldest-none [] e = refl
oldest-none ((k, t) ∷ rest) e = cc

-- ===== src/Base/Dict.antt =====
-- Python's `dict` with text keys: an association list in the order of insertion. An assignment to
-- a key that is there keeps its place. A `set` of texts is a dictionary of units.
use Prim.Native.Nat.{suc, ◌≤◌, ◌<◌}
use Prim.Native.String.{String}
use mathlib.Core.Path.{◌≡◌, refl}
use mathlib.Core.Logic.{ite, if_pos, if_neg}
use mathlib.Core.Bool.{Bool, true, false}
use mathlib.Core.Option.{Option, none, some}
use mathlib.Core.List.{List, [], ◌∷◌, map}
use native.Mathlib.Omega.{arith}
use async_task_worker.Base.Text.{str_dec}
use async_task_worker.Base.Lists.{length}

abbrev pub Dict {ℓ} : Type ℓ → Type ℓ
Dict V = List (String × V)

module _ {ℓ} {V : Type ℓ} where
  unfoldable pub lookup : String → Dict V → Option V
  lookup k [] = none
  lookup k ((j, v) ∷ m) = ite (str_dec k j) (some v) (lookup k m)

  -- `m[k] = v`
  unfoldable pub insert : String → V → Dict V → Dict V
  insert k v [] = (k, v) ∷ []
  insert k v ((j, w) ∷ m) = ite (str_dec k j) ((k, v) ∷ m) ((j, w) ∷ insert k v m)

  -- `del m[k]`, where the key may be absent. Keys are distinct, so this drops one entry at most.
  unfoldable pub delete : String → Dict V → Dict V
  delete k [] = []
  delete k ((j, w) ∷ m) = let rest = delete k m in ite (str_dec k j) rest ((j, w) ∷ rest)

  abbrev pub is_some : Option V → Bool
  is_some none = false
  is_some (some v) = true

  -- `k in m`
  abbrev pub contains : String → Dict V → Bool
  contains k m = is_some (lookup k m)

  pub lookup-insert :
      (k j : String) (v : V) (m : Dict V)
      → lookup j (insert k v m) ≡ ite (str_dec j k) (some v) (lookup j m)
  unfolding lookup insert
  lookup-insert k j v [] = refl
  lookup-insert k j v ((i, w) ∷ m) = ground (arith, lookup-insert k j v m)

  pub lookup-delete :
      (k j : String) (m : Dict V) → lookup j (delete k m) ≡ ite (str_dec j k) none (lookup j m)
  unfolding lookup delete
  lookup-delete k j [] = ground arith
  lookup-delete k j ((i, w) ∷ m) = ground (arith, lookup-delete k j m)

  pub length-insert :
      (k : String) (v : V) (m : Dict V)
      → length (insert k v m) ≡ elim (lookup k m) [ none ↦ suc (length m) | some _ ↦ length m ]
  unfolding lookup insert
  length-insert k v [] = refl
  length-insert k v ((i, w) ∷ m) = ground (arith, length-insert k v m)

  pub length-delete-le : (k : String) (m : Dict V) → length (delete k m) ≤ length m
  unfolding delete
  length-delete-le k [] = omega arith
  length-delete-le k ((i, w) ∷ m) = ground (arith, length-delete-le k m)

  pub length-delete-lt :
      (k : String) (m : Dict V) → contains k m ≡ true → length (delete k m) < length m
  unfolding lookup delete
  length-delete-lt k [] h = cc
  length-delete-lt k ((i, w) ∷ m) h = ground (arith, length-delete-lt k m, length-delete-le k m)

  pub delete_absent : (k : String) (m : Dict V) → lookup k m ≡ none → delete k m ≡ m
  unfolding lookup delete
  delete_absent k [] h = refl
  delete_absent k ((i, w) ∷ m) h = ground (arith, delete_absent k m)

  pub delete_absent_bool : (k : String) (m : Dict V) → contains k m ≡ false → delete k m ≡ m
  delete_absent_bool k m h = delete_absent k m (ground arith)

abbrev pub Set : Type 0
Set = Dict (Unit {0})

abbrev pub add : String → Set → Set
add k s = insert k tt s

abbrev pub keys {ℓ} : {V : Type ℓ} → Dict V → List String
keys m = map (λ e. e.0) m

-- `k in ks`
abbrev pub has : String → List String → Bool
has k [] = false
has k (j ∷ js) = ite (str_dec k j) true (has k js)

pub has-keys {ℓ} : {V : Type ℓ} (k : String) (m : Dict V) → has k (keys m) ≡ contains k m
unfolding lookup
has-keys k [] = refl
has-keys k ((j, v) ∷ m) = ground (arith, has-keys k m)

-- No key stands twice.
abbrev pub IsUnique {ℓ} : {V : Type ℓ} → Dict V → Type 0
IsUnique [] = Unit
IsUnique ((k, v) ∷ m) = (contains k m ≡ false) × IsUnique m

module _ {ℓ} {V : Type ℓ} where
  pub insert-IsUnique : (k : String) (v : V) (m : Dict V) → IsUnique m → IsUnique (insert k v m)
  unfolding lookup insert
  insert-IsUnique k v [] u = (refl, tt)
  insert-IsUnique k v ((j, w) ∷ m) u = elim (str_dec k j) [
    | yes e ↦ rw (insert, if_pos (str_dec k j) e) (ground (arith, u.0), u.1)
    | no n ↦
        rw (insert, if_neg (str_dec k j) n)
          (ground (arith, u.0, lookup-insert k j v m), insert-IsUnique k v m u.1)
  ]

  pub delete-IsUnique : (k : String) (m : Dict V) → IsUnique m → IsUnique (delete k m)
  unfolding lookup delete
  delete-IsUnique k [] u = tt
  delete-IsUnique k ((j, w) ∷ m) u = elim (str_dec k j) [
    | yes e ↦ rw (delete, if_pos (str_dec k j) e) (delete-IsUnique k m u.1)
    | no n ↦
        rw (delete, if_neg (str_dec k j) n)
          (ground (arith, u.0, lookup-delete k j m), delete-IsUnique k m u.1)
  ]

  pub length-delete :
      (k : String) (m : Dict V)
      → IsUnique m
      → contains k m ≡ true
      → suc (length (delete k m)) ≡ length m
  unfolding lookup delete
  length-delete k [] u h = cc
  length-delete k ((i, w) ∷ m) u h = ground (arith, length-delete k m u.1, delete_absent_bool k m)

-- ===== src/Base/Text.antt =====
-- Equality and order of texts. Python compares `str` by code points, from the left.
use Prim.Native.Nat.{compare, Ordering}
use Prim.Native.Char.{code}
use Prim.Native.String.{String}
use mathlib.Core.Path.{◌≡◌, refl}
use mathlib.Core.Logic.{◌⊎◌, inl, inr}
use mathlib.Core.Bool.{Bool, true, false}
use text.Mathlib.Text.{◌==◌ as str_eq}
use text.Mathlib.TextEquality.{eq_iff, Char-path}
use native.Mathlib.Omega.{arith}
use async_task_worker.Base.Tests.{Bool-cases}

-- A decision of `s == t`, which runs in tests.
unfoldable pub str_dec : Discrete String
unfolding Bool-cases
str_dec s t = elim (Bool-cases (str_eq s t)) [
  | inl e ↦ yes ((eq_iff s t).0 e)
  | inr e ↦ no (λ p. different p e)
]
  where
    different : s ≡ t → str_eq s t ≡ false → ⊥
    different p e = cc ((eq_iff s t).1 p)

unfoldable pub str_lt : String → String → Bool
str_lt String.[] String.[] = false
str_lt String.[] (String.◌∷◌ d t) = true
str_lt (String.◌∷◌ c s) String.[] = false
str_lt (String.◌∷◌ c s) (String.◌∷◌ d t) =
    let rest = str_lt s t in
    elim (compare (code c) (code d)) [
      | Ordering.lt ↦ true
      | Ordering.eq ↦ rest
      | Ordering.gt ↦ false
    ]

pub str_lt_irrefl : (s : String) → str_lt s s ≡ false
unfolding str_lt
str_lt_irrefl String.[] = refl
str_lt_irrefl (String.◌∷◌ c s) = ground (arith, str_lt_irrefl s)

pub str_lt_trans : (s t u : String) → str_lt s t ≡ true → str_lt t u ≡ true → str_lt s u ≡ true
unfolding str_lt
str_lt_trans String.[] String.[] u h k = cc
str_lt_trans String.[] (String.◌∷◌ d t) String.[] h k = cc
str_lt_trans String.[] (String.◌∷◌ d t) (String.◌∷◌ e u) h k = refl
str_lt_trans (String.◌∷◌ c s) String.[] u h k = cc
str_lt_trans (String.◌∷◌ c s) (String.◌∷◌ d t) String.[] h k = cc
str_lt_trans (String.◌∷◌ c s) (String.◌∷◌ d t) (String.◌∷◌ e u) h k =
    ground (arith, str_lt_trans s t u)

pub str_lt_total : (s t : String) → str_lt s t ≡ false → str_lt t s ≡ false → s ≡ t
unfolding str_lt
str_lt_total String.[] String.[] h k = refl
str_lt_total String.[] (String.◌∷◌ d t) h k = cc
str_lt_total (String.◌∷◌ c s) String.[] h k = cc
str_lt_total (String.◌∷◌ c s) (String.◌∷◌ d t) h k =
    cc (Char-path c d (ground arith), str_lt_total s t (ground arith) (ground arith))

-- Of two texts in order, each third text is above the first or below the second.
pub str_lt_split : (s t u : String) → str_lt s u ≡ true → (str_lt s t ≡ true) ⊎ (str_lt t u ≡ true)
unfolding str_lt
str_lt_split String.[] String.[] u h = inr h
str_lt_split String.[] (String.◌∷◌ d t) u h = inl refl
str_lt_split (String.◌∷◌ c s) t String.[] h = cc
str_lt_split (String.◌∷◌ c s) String.[] (String.◌∷◌ e u) h = inr refl
str_lt_split (String.◌∷◌ c s) (String.◌∷◌ d t) (String.◌∷◌ e u) h =
    ground (arith, str_lt_split s t u)

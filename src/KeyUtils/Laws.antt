-- ===== src/KeyUtils/Laws.antt =====
-- src/async_cache/key_utils.py: what a composed key function makes.
use async_task_worker.Base.{String, ◌≡◌, refl, some, List, [], ◌∷◌, ◌++◌, ◌∙◌, ap, sym}
use async_task_worker.KeyUtils.{
  Value, made, KeyFn, join_colons, snoc, collect_parts, compose_key_functions,
}

-- The functions make these parts of the context, in this order.
abbrev pub Parts : {X : Type 0} → List (KeyFn X) → Value X → List String → Type 0
Parts [] context [] = Unit
Parts (f ∷ fs) context (p ∷ ps) = (f context ≡ made p) × Parts fs context ps
Parts _ context _ = ⊥

snoc-append : (xs ys : List String) (p : String) → snoc xs p ++ ys ≡ xs ++ p ∷ ys
unfolding snoc
snoc-append [] ys p = refl
snoc-append (x ∷ xs) ys p = ap (λ l. x ∷ l) (snoc-append xs ys p)

append-nil : (xs : List String) → xs ++ [] ≡ xs
append-nil [] = refl
append-nil (x ∷ xs) = ap (λ l. x ∷ l) (append-nil xs)

module _ {X : Type 0} where
  collect_parts-join :
      (fs : List (KeyFn X)) (context : Value X) (ps so_far : List String)
      → Parts fs context ps
      → collect_parts fs context so_far ≡ made (join_colons (so_far ++ ps))
  unfolding collect_parts
  collect_parts-join [] context [] so_far h =
      ap (λ l. made (join_colons l)) (sym (append-nil so_far))
  collect_parts-join (f ∷ fs) context (p ∷ ps) so_far h =
      rw (collect_parts, h.0)
        (collect_parts-join fs context ps (snoc so_far p) h.1
          ∙ ap (λ l. made (join_colons l)) (snoc-append so_far ps p))
  collect_parts-join [] context (p ∷ ps) so_far h = elim h [ ]
  collect_parts-join (f ∷ fs) context [] so_far h = elim h [ ]

  -- Key functions that each make a part of a context compose to one that makes the parts joined by
  -- colons, in the order of the functions.
  pub composed_joins :
      (f : KeyFn X) (fs : List (KeyFn X)) (context : Value X) (ps : List String)
      → Parts (f ∷ fs) context ps
      → (g : KeyFn X) × (compose_key_functions (f ∷ fs) ≡ some g)
        × (g context ≡ made (join_colons ps))
  unfolding compose_key_functions
  composed_joins f fs context ps h =
      (λ c. collect_parts (f ∷ fs) c [], refl, collect_parts-join (f ∷ fs) context ps [] h)

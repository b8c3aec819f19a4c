-- ===== src/Serialization/Refused.antt =====
-- src/async_cache/serialization.py: `encode` raises for a value that it cannot represent.
use async_task_worker.Base.{
  ℕ, zero, suc, ◌≤◌, String, Bool, true, false, ◌&&◌, ◌≡◌, refl, ◌∙◌, arith, ◌⊎◌, inl, inr,
  Bool-cases,
}
use async_task_worker.Serialization.{
  PyValue, atom, num, str, list, tuple, dict, datetime, uuid, function, object, slotted, opaque,
  Items, nil, cons, Fields, end, field, Slots, no_slots, unset, slot, Python, MsgPack, Result, ok,
  error, encode, encode_hook, encode_with, collect, custom_object, present, map_result, is_ok,
  ◌>>=◌,
}
use async_task_worker.Serialization.Documented.{
  Documented, prepare, is_native, pack_parts, pack_items, pack_fields,
}
use async_task_worker.Serialization.Images.{
  encodable, encodable_items, encodable_fields, encodable_slots, depth,
}
use async_task_worker.Serialization.Packed.{prepare-tree}

module _ {A B : Type 0} where
  bind_error : (r : Result A) (f : A → Result B) → is_ok r ≡ false → is_ok (r >>= f) ≡ false
  bind_error (ok a) f h = cc
  bind_error (error e) f h = refl

  bind_error_later :
      (r : Result A) (f : A → Result B) → ((a : A) → is_ok (f a) ≡ false) → is_ok (r >>= f) ≡ false
  bind_error_later (ok a) f h = h a
  bind_error_later (error e) f h = refl

  map_error : (r : Result A) (f : A → B) → is_ok r ≡ false → is_ok (map_result f r) ≡ false
  map_error (ok a) f h = cc
  map_error (error e) f h = refl

error_of : {R : Type 0} (r : Result R) → is_ok r ≡ false → (e : String) × (r ≡ error e)
error_of (ok x) h = cc
error_of (error e) h = (e, refl)

and_cases : (a b : Bool) → (a && b) ≡ false → (a ≡ false) ⊎ (b ≡ false)
and_cases true b h = inr h
and_cases false b h = inl refl

module _ {A D U : Type 0} (py : Python A D U) where
  collect_refuses :
      {B : Type 0} (pack : PyValue A D U → Result B) (k : String) (v : PyValue A D U)
      (fs : Fields A D U)
      → (is_ok (pack v) ≡ false) ⊎ (is_ok (collect py pack false fs) ≡ false)
      → is_ok (collect py pack false (field k v fs)) ≡ false
  unfolding collect
  collect_refuses pack k v fs h = ground (arith, h)

  custom_object_refuses :
      (o : PyValue A D U) (c m : String) (r : Result (Fields A D U))
      → is_ok r ≡ false
      → is_ok (custom_object py o c m false r) ≡ false
  unfolding custom_object
  custom_object_refuses o c m (ok fs) h = cc
  custom_object_refuses o c m (error e) h = refl

module _ {A D U : Type 0} (f : PyValue A D U → Result (PyValue A D U)) where
  pack_items_refuses :
      (x : PyValue A D U) (xs : Items A D U)
      → (is_ok (f x) ≡ false) ⊎ (is_ok (pack_items f xs) ≡ false)
      → is_ok (pack_items f (cons x xs)) ≡ false
  unfolding pack_items
  pack_items_refuses x xs h = ground (arith, h)

  pack_fields_refuses :
      (k : String) (v : PyValue A D U) (fs : Fields A D U)
      → (is_ok (f v) ≡ false) ⊎ (is_ok (pack_fields f fs) ≡ false)
      → is_ok (pack_fields f (field k v fs)) ≡ false
  unfolding pack_fields
  pack_fields_refuses k v fs h = ground (arith, h)

module _ {B A D U : Type 0} {py : Python A D U} {msgpack : MsgPack B A D U}
    (doc : Documented py msgpack) where
  open doc use {limit, dump, packs}

  packs_refuse :
      (frames : ℕ) (v : PyValue A D U)
      → is_ok (prepare limit (encode_hook py msgpack frames false) v) ≡ false
      → is_ok (msgpack.packb (encode_hook py msgpack frames false) v) ≡ false
  packs_refuse frames v h =
      rw (packs (encode_hook py msgpack frames false) v)
        (map_error (prepare limit (encode_hook py msgpack frames false) v) dump h)

  prepare_refuses :
      (n frames : ℕ) (v : PyValue A D U)
      → is_native v ≡ false
      → is_ok (encode_hook py msgpack frames false v) ≡ false
      → is_ok (prepare (suc n) (encode_hook py msgpack frames false) v) ≡ false
  unfolding prepare
  prepare_refuses n frames v native h = rw native (
      bind_error (encode_hook py msgpack frames false v)
        (pack_parts (prepare n (encode_hook py msgpack frames false))) h)

  -- A dictionary that the code builds for an object cannot be packed if its attributes cannot.
  hook_refuses :
      (frames : ℕ) (v : PyValue A D U)
      → is_ok (encode_with py (msgpack.packb (encode_hook py msgpack frames false)) false v) ≡ false
      → is_ok (encode_hook py msgpack (suc frames) false v) ≡ false
  unfolding encode_hook
  hook_refuses frames v h = h

  mutual
    unfolding encodable encode_hook encode_with prepare pack_parts is_native pack_items pack_fields
        collect present

    prepare-unencodable :
        (v : PyValue A D U) (n frames : ℕ)
        → encodable v ≡ false
        → is_ok (prepare n (encode_hook py msgpack frames false) v) ≡ false
    prepare-unencodable v zero frames e = refl
    prepare-unencodable (atom a) (suc n) frames e = cc
    prepare-unencodable (num a) (suc n) frames e = cc
    prepare-unencodable (str a) (suc n) frames e = cc
    prepare-unencodable (datetime a) (suc n) frames e = cc
    prepare-unencodable (uuid a) (suc n) frames e = cc
    prepare-unencodable (list xs) (suc n) frames e =
        map_error (pack_items (prepare n (encode_hook py msgpack frames false)) xs) list
          (items-unencodable xs n frames e)
    prepare-unencodable (tuple xs) (suc n) frames e =
        map_error (pack_items (prepare n (encode_hook py msgpack frames false)) xs) list
          (items-unencodable xs n frames e)
    prepare-unencodable (dict fs) (suc n) frames e =
        map_error (pack_fields (prepare n (encode_hook py msgpack frames false)) fs) dict
          (fields-unencodable fs n frames e)
    prepare-unencodable (function s) (suc n) zero e = refl
    prepare-unencodable (function s) (suc n) (suc frames) e = refl
    prepare-unencodable (opaque s) (suc n) zero e = refl
    prepare-unencodable (opaque s) (suc n) (suc frames) e = refl
    prepare-unencodable (object c m fs) (suc n) zero e = refl
    prepare-unencodable (object c m fs) (suc n) (suc frames) e =
        prepare_refuses n (suc frames) (object c m fs) refl (
          custom_object_refuses py (object c m fs) c m
            (collect py (msgpack.packb (encode_hook py msgpack frames false)) false fs)
            (collect-unencodable fs frames e))
    prepare-unencodable (slotted c m ss) (suc n) zero e = refl
    prepare-unencodable (slotted c m ss) (suc n) (suc frames) e =
        prepare_refuses n (suc frames) (slotted c m ss) refl (
          custom_object_refuses py (slotted c m ss) c m
            (collect py (msgpack.packb (encode_hook py msgpack frames false)) false (present ss))
            (collect_slots-unencodable ss frames e))

    items-unencodable :
        (xs : Items A D U) (n frames : ℕ)
        → encodable_items xs ≡ false
        → is_ok (pack_items (prepare n (encode_hook py msgpack frames false)) xs) ≡ false
    items-unencodable nil n frames e = cc
    items-unencodable (cons x xs) n frames e =
        pack_items_refuses (prepare n (encode_hook py msgpack frames false)) x xs
          (elim (and_cases (encodable x) _ e) [
            | inl h ↦ inl (prepare-unencodable x n frames h)
            | inr h ↦ inr (items-unencodable xs n frames h)
          ])

    fields-unencodable :
        (fs : Fields A D U) (n frames : ℕ)
        → encodable_fields fs ≡ false
        → is_ok (pack_fields (prepare n (encode_hook py msgpack frames false)) fs) ≡ false
    fields-unencodable end n frames e = cc
    fields-unencodable (field k v fs) n frames e =
        pack_fields_refuses (prepare n (encode_hook py msgpack frames false)) k v fs
          (elim (and_cases (encodable v) _ e) [
            | inl h ↦ inl (prepare-unencodable v n frames h)
            | inr h ↦ inr (fields-unencodable fs n frames h)
          ])

    collect-unencodable :
        (fs : Fields A D U) (frames : ℕ)
        → encodable_fields fs ≡ false
        → is_ok (collect py (msgpack.packb (encode_hook py msgpack frames false)) false fs) ≡ false
    collect-unencodable end frames e = cc
    collect-unencodable (field k v fs) frames e =
        collect_refuses py (msgpack.packb (encode_hook py msgpack frames false)) k v fs
          (elim (and_cases (encodable v) _ e) [
            | inl h ↦ inl (packs_refuse frames v (prepare-unencodable v limit frames h))
            | inr h ↦ inr (collect-unencodable fs frames h)
          ])

    collect_slots-unencodable :
        (ss : Slots A D U) (frames : ℕ)
        → encodable_slots ss ≡ false
        → is_ok
            (collect py (msgpack.packb (encode_hook py msgpack frames false)) false (present ss))
          ≡ false
    collect_slots-unencodable no_slots frames e = cc
    collect_slots-unencodable (unset k ss) frames e = collect_slots-unencodable ss frames e
    collect_slots-unencodable (slot k v ss) frames e =
        collect_refuses py (msgpack.packb (encode_hook py msgpack frames false)) k v (present ss)
          (elim (and_cases (encodable v) _ e) [
            | inl h ↦ inl (packs_refuse frames v (prepare-unencodable v limit frames h))
            | inr h ↦ inr (collect_slots-unencodable ss frames h)
          ])

  encode_packs :
      (frames : ℕ) (fallback : Bool) (v : PyValue A D U)
      → is_ok (encode py msgpack frames fallback v)
        ≡ is_ok (prepare limit (encode_hook py msgpack frames fallback) v)
  unfolding encode
  encode_packs frames fallback v = ground (arith, packs (encode_hook py msgpack frames fallback) v)

  pub encode_refused :
      (frames : ℕ) (v : PyValue A D U)
      → encodable v ≡ false
      → (e : String) × (encode py msgpack frames false v ≡ error e)
  encode_refused frames v h =
      error_of (encode py msgpack frames false v)
        (encode_packs frames false v ∙ prepare-unencodable v limit frames h)

  -- Where its depth fits, a value is encoded without fallback if and only if no function and no opaque
  -- value, such as an integer beyond the range of MsgPack, stands in it.
  pub encode_answers :
      (frames : ℕ) (v : PyValue A D U)
      → depth v ≤ frames
      → depth v ≤ limit
      → is_ok (encode py msgpack frames false v) ≡ encodable v
  encode_answers frames v h l = elim (Bool-cases (encodable v)) [
    | inl e ↦ rw (encode_packs frames false v, prepare-tree doc v limit frames false e (l, h, l), e)
    | inr e ↦ rw (encode_packs frames false v, prepare-unencodable v limit frames e, e)
  ]

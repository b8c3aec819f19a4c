-- ===== src/Serialization/Packed.antt =====
-- src/async_cache/serialization.py: the tree that `encode` writes for a value.
use async_task_worker.Base.{
  ℕ, zero, suc, ◌-◌, ◌≤◌, String, Bool, true, false, ◌≡◌, refl, ap, ◌∙◌, arith,
}
use async_task_worker.Serialization.{
  Word, type_datetime, type_custom_object, type_uuid, PyValue, atom, num, str, list, tuple, dict,
  datetime, uuid, function, object, slotted, opaque, Items, nil, cons, Fields, end, field, Slots,
  no_slots, unset, slot, Python, MsgPack, Result, ok, encode, encode_hook, encode_with, collect,
  custom_object, present, map_result,
}
use async_task_worker.Serialization.Documented.{
  Documented, prepare, is_native, pack_parts, pack_items, pack_fields,
}
use async_task_worker.Serialization.Images.{
  encodable, encodable_items, encodable_fields, encodable_slots, depth, depth_items, depth_fields,
  depth_slots, tree, tree_items, tree_fields, tree_slots, object_tree,
}
use async_task_worker.Serialization.Rebuilt.{and_both}

pred-suc : (n : ℕ) → suc n - 1 ≡ n
pred-suc n = omega arith

module _ {A D U : Type 0} where
  -- The fields that the source tries are kept where each can be packed.
  collect_keeps :
      {B : Type 0} (py : Python A D U) (pack : PyValue A D U → Result B) (fallback : Bool)
      (k : String) (v : PyValue A D U) (b : B) (fs : Fields A D U)
      → pack v ≡ ok b
      → collect py pack fallback fs ≡ ok fs
      → collect py pack fallback (field k v fs) ≡ ok (field k v fs)
  unfolding collect
  collect_keeps py pack fallback k v b fs h rest = rw (h, collect, rest)

module _ {A D U : Type 0} (hook : PyValue A D U → Result (PyValue A D U)) where
  pub prepare-native :
      (n : ℕ) (v : PyValue A D U)
      → 1 ≤ n
      → is_native v ≡ true
      → prepare n hook v ≡ pack_parts (prepare (n - 1) hook) v
  unfolding prepare
  prepare-native zero v h e = absurd (omega arith)
  prepare-native (suc n) v h e = rw (e, pred-suc n)

  pub prepare-hook :
      (n : ℕ) (v w : PyValue A D U)
      → 1 ≤ n
      → is_native v ≡ false
      → hook v ≡ ok w
      → prepare n hook v ≡ pack_parts (prepare (n - 1) hook) w
  unfolding prepare
  prepare-hook zero v w h e r = absurd (omega arith)
  prepare-hook (suc n) v w h e r = rw (e, r, pred-suc n)

  pub prepare-num : (n : ℕ) (k : Word) → 1 ≤ n → prepare n hook (num k) ≡ ok (num k)
  unfolding pack_parts is_native
  prepare-num n k h = prepare-native n (num k) h refl

  pub prepare-str : (n : ℕ) (s : String) → 1 ≤ n → prepare n hook (str s) ≡ ok (str s)
  unfolding pack_parts is_native
  prepare-str n s h = prepare-native n (str s) h refl

  pub prepare-dict :
      (n : ℕ) (fs : Fields A D U)
      → 1 ≤ n
      → prepare n hook (dict fs) ≡ map_result dict (pack_fields (prepare (n - 1) hook) fs)
  unfolding pack_parts is_native
  prepare-dict n fs h = prepare-native n (dict fs) h refl

  pack_object :
      (n : ℕ) (c l : String) (fs gs : Fields A D U)
      → 1 ≤ n
      → pack_fields (prepare (n - 1) hook) fs ≡ ok gs
      → pack_parts (prepare n hook) (object_tree c l fs) ≡ ok (object_tree c l gs)
  unfolding pack_parts pack_fields
  pack_object n c l fs gs h r = rw (
    prepare-num n type_custom_object h,
    prepare-str n c h,
    prepare-str n l h,
    prepare-dict n fs h,
    r,
  )

  -- The dictionary of a datetime or a UUID.
  pub pack_text :
      (n : ℕ) (code : Word) (s : String)
      → 1 ≤ n
      → let t : PyValue A D U = dict (field "__type_code" (num code) (field "data" (str s) end)) in
        pack_parts (prepare n hook) t ≡ ok t
  unfolding pack_parts pack_fields
  pack_text n code s h = rw (prepare-num n code h, prepare-str n s h)

module _ {B A D U : Type 0} {py : Python A D U} {msgpack : MsgPack B A D U}
    (doc : Documented py msgpack) where
  open doc use {limit, dump, packs}

  pub encode_hook-pos :
      (frames : ℕ) (fallback : Bool) (v : PyValue A D U)
      → 1 ≤ frames
      → encode_hook py msgpack frames fallback v
        ≡ encode_with py (msgpack.packb (encode_hook py msgpack (frames - 1) false)) fallback v
  unfolding encode_hook
  encode_hook-pos zero fallback v h = absurd (omega arith)
  encode_hook-pos (suc frames) fallback v h = rw (pred-suc frames)

  pub prepare-object :
      (n frames : ℕ) (fallback : Bool) (v : PyValue A D U) (c l : String) (fs gs : Fields A D U)
      → 2 ≤ n
      → 1 ≤ frames
      → is_native v ≡ false
      → encode_with py (msgpack.packb (encode_hook py msgpack (frames - 1) false)) fallback v
        ≡ ok (object_tree c l fs)
      → pack_fields (prepare (n - 1 - 1) (encode_hook py msgpack frames fallback)) fs ≡ ok gs
      → prepare n (encode_hook py msgpack frames fallback) v ≡ ok (object_tree c l gs)
  prepare-object n frames fallback v c l fs gs h k native e r =
      prepare-hook (encode_hook py msgpack frames fallback) n v (object_tree c l fs) (omega arith)
        native (encode_hook-pos frames fallback v k ∙ e)
      ∙ pack_object (encode_hook py msgpack frames fallback) (n - 1) c l fs gs (omega arith) r

  packs_tree :
      (frames : ℕ) (v : PyValue A D U)
      → prepare limit (encode_hook py msgpack frames false) v ≡ ok (tree py v)
      → msgpack.packb (encode_hook py msgpack frames false) v ≡ ok (dump (tree py v))
  packs_tree frames v h = rw (packs (encode_hook py msgpack frames false) v, h)

  pub encode-ok :
      (frames : ℕ) (fallback : Bool) (v w : PyValue A D U)
      → prepare limit (encode_hook py msgpack frames fallback) v ≡ ok w
      → encode py msgpack frames fallback v ≡ ok (dump w)
  unfolding encode
  encode-ok frames fallback v w h =
      let e : msgpack.packb (encode_hook py msgpack frames fallback) v ≡ ok (dump w) =
        rw (packs (encode_hook py msgpack frames fallback) v, h) in
      rw (e, encode)

  -- The depth fits into the limit of packb and the frames of Python.
  abbrev Fits : ℕ → ℕ → ℕ → Type 0
  Fits d n frames = (d ≤ n) × (d ≤ frames) × (d ≤ limit)

  mutual
    unfolding encode_with custom_object pack_parts pack_items pack_fields encodable depth tree
        is_native collect present

    pub prepare-tree :
        (v : PyValue A D U) (n frames : ℕ) (fallback : Bool)
        → encodable v ≡ true
        → Fits (depth v) n frames
        → prepare n (encode_hook py msgpack frames fallback) v ≡ ok (tree py v)
    prepare-tree (atom a) n frames fallback e (h, k, l) =
        prepare-native (encode_hook py msgpack frames fallback) n (atom a) h refl
    prepare-tree (num a) n frames fallback e (h, k, l) =
        prepare-native (encode_hook py msgpack frames fallback) n (num a) h refl
    prepare-tree (str a) n frames fallback e (h, k, l) =
        prepare-native (encode_hook py msgpack frames fallback) n (str a) h refl
    prepare-tree (list xs) n frames fallback e (h, k, l) =
        prepare-native (encode_hook py msgpack frames fallback) n (list xs) (omega arith) refl
        ∙ ap (map_result list) (
            prepare_items-tree xs (n - 1) frames fallback e (omega arith, omega arith, omega arith))
    prepare-tree (tuple xs) n frames fallback e (h, k, l) =
        prepare-native (encode_hook py msgpack frames fallback) n (tuple xs) (omega arith) refl
        ∙ ap (map_result list) (
            prepare_items-tree xs (n - 1) frames fallback e (omega arith, omega arith, omega arith))
    prepare-tree (dict fs) n frames fallback e (h, k, l) =
        prepare-native (encode_hook py msgpack frames fallback) n (dict fs) (omega arith) refl
        ∙ ap (map_result dict) (
            prepare_fields-tree fs (n - 1) frames fallback e
              (omega arith, omega arith, omega arith))
    prepare-tree (datetime d) n frames fallback e (h, k, l) =
        prepare-hook (encode_hook py msgpack frames fallback) n (datetime d) (tree py (datetime d))
          (omega arith) refl (encode_hook-pos frames fallback (datetime d) (omega arith))
        ∙ pack_text (encode_hook py msgpack frames fallback) (n - 1) type_datetime (py.isoformat d)
            (omega arith)
    prepare-tree (uuid d) n frames fallback e (h, k, l) =
        prepare-hook (encode_hook py msgpack frames fallback) n (uuid d) (tree py (uuid d))
          (omega arith) refl (encode_hook-pos frames fallback (uuid d) (omega arith))
        ∙ pack_text (encode_hook py msgpack frames fallback) (n - 1) type_uuid (py.uuid_text d)
            (omega arith)
    prepare-tree (function s) n frames fallback e h = cc
    prepare-tree (opaque s) n frames fallback e h = cc
    prepare-tree (object c m fs) n frames fallback e (h, k, l) =
        prepare-object n frames fallback (object c m fs) c m fs (tree_fields py fs) (omega arith)
          (omega arith) refl
          (ap (custom_object py (object c m fs) c m fallback)
            (collect-fields fs (frames - 1) fallback e (omega arith, omega arith, omega arith)))
          (prepare_fields-tree fs (n - 1 - 1) frames fallback e
            (omega arith, omega arith, omega arith))
    prepare-tree (slotted c m ss) n frames fallback e (h, k, l) =
        prepare-object n frames fallback (slotted c m ss) c m (present ss) (tree_slots py ss)
          (omega arith) (omega arith) refl
          (ap (custom_object py (slotted c m ss) c m fallback)
            (collect-slots ss (frames - 1) fallback e (omega arith, omega arith, omega arith)))
          (prepare_slots-tree ss (n - 1 - 1) frames fallback e
            (omega arith, omega arith, omega arith))

    prepare_items-tree :
        (xs : Items A D U) (n frames : ℕ) (fallback : Bool)
        → encodable_items xs ≡ true
        → Fits (depth_items xs) n frames
        → pack_items (prepare n (encode_hook py msgpack frames fallback)) xs ≡ ok (tree_items py xs)
    prepare_items-tree nil n frames fallback e h = refl
    prepare_items-tree (cons x xs) n frames fallback e (h, k, l) =
        let (e1, e2) = and_both (encodable x) _ e in
        rw (
          prepare-tree x n frames fallback e1 (omega arith, omega arith, omega arith),
          prepare_items-tree xs n frames fallback e2 (omega arith, omega arith, omega arith),
        )

    prepare_fields-tree :
        (fs : Fields A D U) (n frames : ℕ) (fallback : Bool)
        → encodable_fields fs ≡ true
        → Fits (depth_fields fs) n frames
        → pack_fields (prepare n (encode_hook py msgpack frames fallback)) fs
          ≡ ok (tree_fields py fs)
    prepare_fields-tree end n frames fallback e h = refl
    prepare_fields-tree (field i v fs) n frames fallback e (h, k, l) =
        let (e1, e2) = and_both (encodable v) _ e in
        rw (
          prepare-tree v n frames fallback e1 (omega arith, omega arith, omega arith),
          prepare_fields-tree fs n frames fallback e2 (omega arith, omega arith, omega arith),
        )

    prepare_slots-tree :
        (ss : Slots A D U) (n frames : ℕ) (fallback : Bool)
        → encodable_slots ss ≡ true
        → Fits (depth_slots ss) n frames
        → pack_fields (prepare n (encode_hook py msgpack frames fallback)) (present ss)
          ≡ ok (tree_slots py ss)
    prepare_slots-tree no_slots n frames fallback e h = refl
    prepare_slots-tree (unset i ss) n frames fallback e h =
        prepare_slots-tree ss n frames fallback e h
    prepare_slots-tree (slot i v ss) n frames fallback e (h, k, l) =
        let (e1, e2) = and_both (encodable v) _ e in
        rw (
          prepare-tree v n frames fallback e1 (omega arith, omega arith, omega arith),
          prepare_slots-tree ss n frames fallback e2 (omega arith, omega arith, omega arith),
        )

    collect-fields :
        (fs : Fields A D U) (frames : ℕ) (fallback : Bool)
        → encodable_fields fs ≡ true
        → Fits (depth_fields fs) limit frames
        → collect py (msgpack.packb (encode_hook py msgpack frames false)) fallback fs ≡ ok fs
    collect-fields end frames fallback e h = refl
    collect-fields (field i v fs) frames fallback e (h, k, l) =
        let (e1, e2) = and_both (encodable v) _ e in
        collect_keeps py (msgpack.packb (encode_hook py msgpack frames false)) fallback i v
          (dump (tree py v)) fs
          (packs_tree frames v
            (prepare-tree v limit frames false e1 (omega arith, omega arith, omega arith)))
          (collect-fields fs frames fallback e2 (omega arith, omega arith, omega arith))

    collect-slots :
        (ss : Slots A D U) (frames : ℕ) (fallback : Bool)
        → encodable_slots ss ≡ true
        → Fits (depth_slots ss) limit frames
        → collect py (msgpack.packb (encode_hook py msgpack frames false)) fallback (present ss)
          ≡ ok (present ss)
    collect-slots no_slots frames fallback e h = refl
    collect-slots (unset i ss) frames fallback e h = collect-slots ss frames fallback e h
    collect-slots (slot i v ss) frames fallback e (h, k, l) =
        let (e1, e2) = and_both (encodable v) _ e in
        collect_keeps py (msgpack.packb (encode_hook py msgpack frames false)) fallback i v
          (dump (tree py v)) (present ss)
          (packs_tree frames v
            (prepare-tree v limit frames false e1 (omega arith, omega arith, omega arith)))
          (collect-slots ss frames fallback e2 (omega arith, omega arith, omega arith))

-- ===== src/Serialization/Fallback.antt =====
-- src/async_cache/serialization.py: `encode` with fallback represents every value.
use async_task_worker.Base.{
  ℕ, ◌+◌, ◌-◌, ◌≤◌, String, true, false, ◌≡◌, refl, ◌∙◌, ap, arith, ◌⊎◌, inl, inr,
}
use async_task_worker.Serialization.{
  type_datetime, type_uuid, type_string_fallback, shown, PyValue, atom, num, str, list, tuple, dict,
  datetime, uuid, function, object, slotted, opaque, Items, nil, cons, Fields, end, field, Slots,
  no_slots, unset, slot, Python, MsgPack, Result, ok, error, encode, encode_hook, encode_with,
  collect, custom_object, present, map_result, string_fallback,
}
use async_task_worker.Serialization.Documented.{
  Documented, prepare, is_native, pack_parts, pack_items, pack_fields,
}
use async_task_worker.Serialization.Images.{
  depth, depth_items, depth_fields, depth_slots, object_tree,
}
use async_task_worker.Serialization.Packed.{
  prepare-native, prepare-hook, prepare-object, pack_text, prepare-num, prepare-str,
  encode_hook-pos, encode-ok,
}

pub Result-cases {ℓ} :
    {R : Type ℓ} (r : Result R) → ((x : R) × (r ≡ ok x)) ⊎ ((e : String) × (r ≡ error e))
Result-cases (ok x) = inl (x, refl)
Result-cases (error e) = inr (e, refl)

depth_pos : {A D U : Type 0} (v : PyValue A D U) → 1 ≤ depth v
unfolding depth
depth_pos (atom a) = omega arith
depth_pos (num a) = omega arith
depth_pos (str a) = omega arith
depth_pos _ = omega arith

module _ {A D U : Type 0} (py : Python A D U) (hook : PyValue A D U → Result (PyValue A D U)) where
  -- The representation as a text is natively supported.
  pack_fallback :
      (n : ℕ) (o : PyValue A D U) (s : String)
      → 1 ≤ n
      → pack_parts (prepare n hook) (shown py o s) ≡ ok (shown py o s)
  unfolding pack_parts pack_fields
  pack_fallback n o s h = rw (
    prepare-num hook n type_string_fallback h,
    prepare-str hook n (py.type_name o) h,
    prepare-str hook n s h,
  )

  prepare-fallback :
      (n : ℕ) (o : PyValue A D U) (s : String)
      → 2 ≤ n
      → prepare n hook (shown py o s) ≡ ok (shown py o s)
  unfolding is_native
  prepare-fallback n o s h =
      prepare-native hook n (shown py o s) (omega arith) refl
      ∙ pack_fallback (n - 1) o s (omega arith)

  -- The fields that `collect` answers with fallback, and that they can be packed.
  abbrev Collects : {B : Type 0} → (PyValue A D U → Result B) → ℕ → Fields A D U → Type 0
  Collects pack n fs =
      (gs : Fields A D U) × (ws : Fields A D U) × (collect py pack true fs ≡ ok gs)
      × (pack_fields (prepare n hook) gs ≡ ok ws)

  Collects-field :
      {B : Type 0} (pack : PyValue A D U → Result B) (n : ℕ) (k : String) (v w : PyValue A D U)
      (fs : Fields A D U) (s : String)
      → py.str_of v ≡ ok s
      → 2 ≤ n
      → prepare n hook v ≡ ok w
      → Collects pack n fs
      → Collects pack n (field k v fs)
  unfolding collect pack_fields string_fallback
  Collects-field pack n k v w fs s t h e (gs, ws, c, p) = elim (Result-cases (pack v)) [
    | inl (b, r) ↦ (field k v gs, field k w ws, rw (r, collect, c), rw (e, p))
    | inr (x, r) ↦ (
      field k (shown py v s) gs,
      field k (shown py v s) ws,
      rw (r, collect, string_fallback, t, c),
      rw (prepare-fallback n v s h, p),
    )
  ]

module _ {B A D U : Type 0} {py : Python A D U} {msgpack : MsgPack B A D U}
    (doc : Documented py msgpack) where
  open doc use {limit, dump}

  -- `str` raises for no value.
  abbrev pub Shows : Type 0
  Shows = (v : PyValue A D U) → (s : String) × (py.str_of v ≡ ok s)

  -- The value can be packed by the hook with fallback.
  abbrev Packs : ℕ → ℕ → PyValue A D U → Type 0
  Packs n frames v = (w : PyValue A D U) × (prepare n (encode_hook py msgpack frames true) v ≡ ok w)

  Packs-replaced :
      (n frames : ℕ) (v : PyValue A D U) (s : String)
      → py.str_of v ≡ ok s
      → 2 ≤ n
      → 1 ≤ frames
      → is_native v ≡ false
      → encode_with py (msgpack.packb (encode_hook py msgpack (frames - 1) false)) true v
        ≡ string_fallback py v
      → Packs n frames v
  unfolding string_fallback
  Packs-replaced n frames v s t h k native e = (
    shown py v s,
    prepare-hook (encode_hook py msgpack frames true) n v (shown py v s) (omega arith) native
          (encode_hook-pos doc frames true v k ∙ e ∙ ap (map_result (shown py v)) t)
        ∙ pack_fallback py (encode_hook py msgpack frames true) (n - 1) v s (omega arith),
  )

  mutual
    unfolding encode_with custom_object pack_parts pack_items pack_fields depth is_native collect
        present

    pub prepare-total :
        Shows → (v : PyValue A D U) (n frames : ℕ) → depth v ≤ n → 1 ≤ frames → Packs n frames v
    prepare-total sh (atom a) n frames h k =
        (atom a, prepare-native (encode_hook py msgpack frames true) n (atom a) h refl)
    prepare-total sh (num a) n frames h k =
        (num a, prepare-native (encode_hook py msgpack frames true) n (num a) h refl)
    prepare-total sh (str a) n frames h k =
        (str a, prepare-native (encode_hook py msgpack frames true) n (str a) h refl)
    prepare-total sh (list xs) n frames h k =
        let (ys, p) = items-total sh xs (n - 1) frames (omega arith) k in
        (
          list ys,
          prepare-native (encode_hook py msgpack frames true) n (list xs) (omega arith) refl
              ∙ ap (map_result list) p,
        )
    prepare-total sh (tuple xs) n frames h k =
        let (ys, p) = items-total sh xs (n - 1) frames (omega arith) k in
        (
          list ys,
          prepare-native (encode_hook py msgpack frames true) n (tuple xs) (omega arith) refl
              ∙ ap (map_result list) p,
        )
    prepare-total sh (dict fs) n frames h k =
        let (gs, p) = fields-total sh fs (n - 1) frames (omega arith) k in
        (
          dict gs,
          prepare-native (encode_hook py msgpack frames true) n (dict fs) (omega arith) refl
              ∙ ap (map_result dict) p,
        )
    prepare-total sh (datetime d) n frames h k = (
      dict (field "__type_code" (num type_datetime) (field "data" (str (py.isoformat d)) end)),
      prepare-hook (encode_hook py msgpack frames true) n (datetime d)
            (dict
              (field "__type_code" (num type_datetime) (field "data" (str (py.isoformat d)) end)))
            (omega arith) refl (encode_hook-pos doc frames true (datetime d) k)
          ∙ pack_text (encode_hook py msgpack frames true) (n - 1) type_datetime (py.isoformat d)
              (omega arith),
    )
    prepare-total sh (uuid d) n frames h k = (
      dict (field "__type_code" (num type_uuid) (field "data" (str (py.uuid_text d)) end)),
      prepare-hook (encode_hook py msgpack frames true) n (uuid d)
            (dict (field "__type_code" (num type_uuid) (field "data" (str (py.uuid_text d)) end)))
            (omega arith) refl (encode_hook-pos doc frames true (uuid d) k)
          ∙ pack_text (encode_hook py msgpack frames true) (n - 1) type_uuid (py.uuid_text d)
              (omega arith),
    )
    prepare-total sh (function s) n frames h k =
        Packs-replaced n frames (function s) (sh (function s)).0 (sh (function s)).1 h k refl refl
    prepare-total sh (opaque s) n frames h k =
        Packs-replaced n frames (opaque s) (sh (opaque s)).0 (sh (opaque s)).1 h k refl refl
    prepare-total sh (object c m fs) n frames h k =
        let packs = msgpack.packb (encode_hook py msgpack (frames - 1) false) in
        let (gs, ws, e, p) = collect-total sh packs fs (n - 1 - 1) frames (omega arith) k in
        (
          object_tree c m ws,
          prepare-object doc n frames true (object c m fs) c m gs ws (omega arith) k refl
              (ap (custom_object py (object c m fs) c m true) e) p,
        )
    prepare-total sh (slotted c m ss) n frames h k =
        let packs = msgpack.packb (encode_hook py msgpack (frames - 1) false) in
        let (gs, ws, e, p) = collect_slots-total sh packs ss (n - 1 - 1) frames (omega arith) k in
        (
          object_tree c m ws,
          prepare-object doc n frames true (slotted c m ss) c m gs ws (omega arith) k refl
              (ap (custom_object py (slotted c m ss) c m true) e) p,
        )

    items-total :
        Shows
        → (xs : Items A D U) (n frames : ℕ) → depth_items xs ≤ n
        → 1 ≤ frames
        → (ys : Items A D U) × (pack_items (prepare n (encode_hook py msgpack frames true)) xs
            ≡ ok ys)
    items-total sh nil n frames h k = (nil, refl)
    items-total sh (cons x xs) n frames h k =
        let (y, p) = prepare-total sh x n frames (omega arith) k in
        let (ys, ps) = items-total sh xs n frames (omega arith) k in (cons y ys, rw (p, ps))

    fields-total :
        Shows
        → (fs : Fields A D U) (n frames : ℕ) → depth_fields fs ≤ n
        → 1 ≤ frames
        → (gs : Fields A D U) × (pack_fields (prepare n (encode_hook py msgpack frames true)) fs
            ≡ ok gs)
    fields-total sh end n frames h k = (end, refl)
    fields-total sh (field i v fs) n frames h k =
        let (w, p) = prepare-total sh v n frames (omega arith) k in
        let (gs, ps) = fields-total sh fs n frames (omega arith) k in (field i w gs, rw (p, ps))

    collect-total :
        Shows
        → (packs : PyValue A D U → Result B) (fs : Fields A D U) (n frames : ℕ)
        → 1 + depth_fields fs ≤ n
        → 1 ≤ frames
        → Collects py (encode_hook py msgpack frames true) packs n fs
    collect-total sh packs end n frames h k = (end, end, refl, refl)
    collect-total sh packs (field i v fs) n frames h k =
        let (w, p) = prepare-total sh v n frames (omega arith) k in
        Collects-field py (encode_hook py msgpack frames true) packs n i v w fs (sh v).0 (sh v).1
          (omega (arith, depth_pos v)) p (collect-total sh packs fs n frames (omega arith) k)

    collect_slots-total :
        Shows
        → (packs : PyValue A D U → Result B) (ss : Slots A D U) (n frames : ℕ)
        → 1 + depth_slots ss ≤ n
        → 1 ≤ frames
        → Collects py (encode_hook py msgpack frames true) packs n (present ss)
    collect_slots-total sh packs no_slots n frames h k = (end, end, refl, refl)
    collect_slots-total sh packs (unset i ss) n frames h k =
        collect_slots-total sh packs ss n frames h k
    collect_slots-total sh packs (slot i v ss) n frames h k =
        let (w, p) = prepare-total sh v n frames (omega arith) k in
        Collects-field py (encode_hook py msgpack frames true) packs n i v w (present ss) (sh v).0
          (sh v).1 (omega (arith, depth_pos v)) p
          (collect_slots-total sh packs ss n frames (omega arith) k)

  -- With fallback every value whose depth fits the limit of MsgPack is encoded, if `str` raises for no
  -- value and the hook may be called at least once.
  pub encode-total :
      (frames : ℕ) (v : PyValue A D U)
      → Shows
      → 1 ≤ frames
      → depth v ≤ limit
      → (b : B) × (encode py msgpack frames true v ≡ ok b)
  encode-total frames v sh k h =
      let (w, p) = prepare-total sh v limit frames h k in (dump w, encode-ok doc frames true v w p)

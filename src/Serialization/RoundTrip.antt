-- ===== src/Serialization/RoundTrip.antt =====
-- src/async_cache/serialization.py: what `decode` reads of what `encode` wrote.
use async_task_worker.Base.{
  ℕ, ◌<◌, ◌≤◌, str_dec, if_neg, if_pos, String, Bool, true, false, ◌&&◌, ◌≡◌, refl, ◌∙◌, ap, arith,
  none, some, sym,
}
use async_task_worker.Serialization.{
  type_datetime, PyValue, atom, num, str, list, tuple, dict, datetime, uuid, function, object,
  slotted, opaque, Items, nil, cons, Fields, end, field, Python, MsgPack, ok, encode, encode_hook,
  decode, decode_hook, is_ok, get_field,
}
use async_task_worker.Serialization.Documented.{Documented, rebuild}
use async_task_worker.Serialization.Images.{
  encodable, encodable_fields, unreserved, unreserved_fields, depth, depth_fields, image,
  image_items, image_fields, tree,
}
use async_task_worker.Serialization.Packed.{prepare-tree, encode-ok}
use async_task_worker.Serialization.Rebuilt.{rebuild-tree, rebuild_fields-tree, and_both}

module _ {A D U : Type 0} where
  -- No object and no tuple stands in it.
  unfoldable mutual
    pub objectless : PyValue A D U → Bool
    objectless (list xs) = objectless_items xs
    objectless (tuple xs) = false
    objectless (dict fs) = objectless_fields fs
    objectless (object c m fs) = false
    objectless (slotted c m ss) = false
    objectless v = true

    pub objectless_items : Items A D U → Bool
    objectless_items nil = true
    objectless_items (cons x xs) = objectless x && objectless_items xs

    pub objectless_fields : Fields A D U → Bool
    objectless_fields end = true
    objectless_fields (field k v fs) = objectless v && objectless_fields fs

  mutual
    unfolding image objectless

    image_same : (v : PyValue A D U) → objectless v ≡ true → image v ≡ v
    image_same (list xs) h = ap list (image_same_items xs h)
    image_same (tuple xs) h = cc
    image_same (dict fs) h = ap dict (image_same_fields fs h)
    image_same (object c m fs) h = cc
    image_same (slotted c m ss) h = cc
    image_same (atom a) h = refl
    image_same (num a) h = refl
    image_same (str a) h = refl
    image_same (datetime a) h = refl
    image_same (uuid a) h = refl
    image_same (function a) h = refl
    image_same (opaque a) h = refl

    image_same_items : (xs : Items A D U) → objectless_items xs ≡ true → image_items xs ≡ xs
    image_same_items nil h = refl
    image_same_items (cons x xs) h =
        let (h1, h2) = and_both (objectless x) _ h in rw (image_same x h1, image_same_items xs h2)

    image_same_fields : (fs : Fields A D U) → objectless_fields fs ≡ true → image_fields fs ≡ fs
    image_same_fields end h = refl
    image_same_fields (field k v fs) h =
        let (h1, h2) = and_both (objectless v) _ h in rw (image_same v h1, image_same_fields fs h2)

  get_field_absent :
      (k : String) (fs : Fields A D U)
      → get_field k fs ≡ none
      → get_field k (image_fields fs) ≡ none
  unfolding get_field image
  get_field_absent k end h = refl
  get_field_absent k (field j v fs) h = elim (str_dec k j) [
    | yes p ↦ cc (if_pos (str_dec k j) p (some v) (get_field k fs), h)
    | no p ↦
        if_neg (str_dec k j) p (some (image v)) (get_field k (image_fields fs))
        ∙ get_field_absent k fs (sym (if_neg (str_dec k j) p (some v) (get_field k fs)) ∙ h)
  ]

module _ {B A D U : Type 0} {py : Python A D U} {msgpack : MsgPack B A D U}
    (doc : Documented py msgpack) where
  open doc use {limit, dump, unpacks}

  -- A value without functions, opaque values and keys or attributes `__type_code`, whose depth fits, is
  -- encoded, and is decoded to its image.
  pub decode-encode :
      (frames : ℕ) (fallback : Bool) (v : PyValue A D U)
      → encodable v ≡ true
      → unreserved v ≡ true
      → depth v ≤ frames
      → depth v ≤ limit
      → (b : B) × (encode py msgpack frames fallback v ≡ ok b)
        × (decode py msgpack b ≡ ok (image v))
  unfolding decode
  decode-encode frames fallback v e u h l =
      let p = prepare-tree doc v limit frames fallback e (l, h, l) in
      let r : msgpack.unpackb (decode_hook py) (dump (tree py v)) ≡ ok (image v) =
        unpacks (encode_hook py msgpack frames fallback) (decode_hook py) v (tree py v) p
        ∙ rebuild-tree doc v e u in
      (dump (tree py v), encode-ok doc frames fallback v (tree py v) p, rw (r, decode))

  -- The round trip of values without objects and tuples.
  pub decode-encode_objectless :
      (frames : ℕ) (fallback : Bool) (v : PyValue A D U)
      → encodable v ≡ true
      → unreserved v ≡ true
      → objectless v ≡ true
      → depth v ≤ frames
      → depth v ≤ limit
      → (b : B) × (encode py msgpack frames fallback v ≡ ok b) × (decode py msgpack b ≡ ok v)
  decode-encode_objectless frames fallback v e u o h l =
      let (b, p, r) = decode-encode frames fallback v e u h l in (b, p, r ∙ ap ok (image_same v o))

  decode_hook_no_data :
      (fs : Fields A D U)
      → get_field "data" fs ≡ none
      → is_ok (decode_hook py (field "__type_code" (num type_datetime) fs)) ≡ false
  unfolding decode_hook get_field str_dec
  decode_hook_no_data fs h = rw h

  decode_fails :
      (b : B)
      → is_ok (msgpack.unpackb (decode_hook py) b) ≡ false
      → is_ok (decode py msgpack b) ≡ false
  unfolding decode
  decode_fails b h = ground (arith, h)

  rebuild-typed :
      (fs : Fields A D U)
      → encodable_fields fs ≡ true
      → unreserved_fields fs ≡ true
      → rebuild (decode_hook py) (tree py (dict (field "__type_code" (num type_datetime) fs)))
        ≡ decode_hook py (field "__type_code" (num type_datetime) (image_fields fs))
  unfolding rebuild tree
  rebuild-typed fs e u = rw (rebuild_fields-tree doc fs e u)

  -- A dictionary of the caller that has the key `__type_code` with the code of a datetime, no key `data`,
  -- and otherwise entries that hold no function, no opaque value and no such key, and whose depth fits,
  -- is encoded, but decoding what was written raises an error.
  pub reserved_key_lost :
      (frames : ℕ) (fallback : Bool) (fs : Fields A D U)
      → encodable_fields fs ≡ true
      → unreserved_fields fs ≡ true
      → get_field "data" fs ≡ none
      → depth_fields fs < frames
      → depth_fields fs < limit
      → 1 < frames
      → 1 < limit
      → (b : B) × (encode py msgpack frames fallback
            (dict (field "__type_code" (num type_datetime) fs))
          ≡ ok b)
        × (is_ok (decode py msgpack b) ≡ false)
  unfolding encodable depth
  reserved_key_lost frames fallback fs e u n h l h1 l1 =
      let v : PyValue A D U = dict (field "__type_code" (num type_datetime) fs) in
      let p = prepare-tree doc v limit frames fallback e (omega arith, omega arith, omega arith) in
      let r = unpacks (encode_hook py msgpack frames fallback) (decode_hook py) v (tree py v) p in
      (
        dump (tree py v),
        encode-ok doc frames fallback v (tree py v) p,
        decode_fails (dump (tree py v)) (
            rw (r, rebuild-typed fs e u)
              (decode_hook_no_data (image_fields fs) (get_field_absent "data" fs n))),
      )

-- ===== src/Serialization/Rebuilt.antt =====
-- src/async_cache/serialization.py: what `_decode_hook` makes of the tree of a value.
use async_task_worker.Base.{
  String, Bool, true, false, ◌&&◌, ◌≡◌, refl, ◌∙◌, none, some, str_dec, if_pos, if_neg, not, arith,
}
use async_task_worker.Serialization.{
  type_datetime, type_custom_object, type_uuid, PyValue, atom, num, str, list, tuple, dict,
  datetime, uuid, function, object, slotted, opaque, Items, nil, cons, Fields, end, field, Slots,
  no_slots, unset, slot, Python, MsgPack, ok, decode_hook, get_field, merge,
}
use async_task_worker.Serialization.Documented.{Documented, rebuild, rebuild_items, rebuild_fields}
use async_task_worker.Serialization.Images.{
  encodable, encodable_items, encodable_fields, encodable_slots, unreserved, unreserved_items,
  unreserved_fields, unreserved_slots, image, image_items, image_fields, image_slots, tree,
  tree_items, tree_fields, tree_slots, is_reserved, class_fields,
}

pub and_both : (a b : Bool) → (a && b) ≡ true → (a ≡ true) × (b ≡ true)
and_both a b h = ground arith

and_three : (r a b : Bool) → (not r && a && b) ≡ true → (r ≡ false) × (a ≡ true) × (b ≡ true)
and_three r a b h = ground arith

get_field-unreserved :
    {A D U : Type 0} (k : String) (v : PyValue A D U) (fs : Fields A D U)
    → is_reserved k ≡ false
    → get_field "__type_code" (field k v fs) ≡ get_field "__type_code" fs
unfolding get_field is_reserved
get_field-unreserved k v fs h = elim (str_dec "__type_code" k) [
  | yes p ↦ cc (if_pos (str_dec "__type_code" k) p true false)
  | no p ↦ if_neg (str_dec "__type_code" k) p (some v) (get_field "__type_code" fs)
]

module _ {A D U : Type 0} where
  get_field-image :
      (fs : Fields A D U)
      → unreserved_fields fs ≡ true
      → get_field "__type_code" (image_fields fs) ≡ none
  unfolding image unreserved get_field
  get_field-image end h = refl
  get_field-image (field k v fs) h =
      let (free, here, below) = and_three (is_reserved k) _ _ h in
      get_field-unreserved k (image v) (image_fields fs) free ∙ get_field-image fs below

  get_field-image_slots :
      (ss : Slots A D U)
      → unreserved_slots ss ≡ true
      → get_field "__type_code" (image_slots ss) ≡ none
  unfolding image unreserved get_field
  get_field-image_slots no_slots h = refl
  get_field-image_slots (unset k ss) h = get_field-image_slots ss h
  get_field-image_slots (slot k v ss) h =
      let (free, here, below) = and_three (is_reserved k) _ _ h in
      get_field-unreserved k (image v) (image_slots ss) free ∙ get_field-image_slots ss below

module _ {A D U : Type 0} (py : Python A D U) where
  decode_hook_plain :
      (fs : Fields A D U) → get_field "__type_code" fs ≡ none → decode_hook py fs ≡ ok (dict fs)
  unfolding decode_hook
  decode_hook_plain fs h = rw (h, decode_hook)

  decode_hook_object :
      (c m : String) (gs : Fields A D U)
      → decode_hook py (
          field "__type_code"
            (num type_custom_object)
            (field "type" (str c) (field "module" (str m) (field "data" (dict gs) end))))
        ≡ ok (dict (merge (class_fields c m) gs))
  unfolding decode_hook get_field str_dec
  decode_hook_object c m gs = refl

module _ {B A D U : Type 0} {py : Python A D U} {msgpack : MsgPack B A D U}
    (doc : Documented py msgpack) where
  open doc use {reads_datetime, reads_uuid}

  decode_hook_datetime :
      (d : D)
      → decode_hook py
          (field "__type_code" (num type_datetime) (field "data" (str (py.isoformat d)) end))
        ≡ ok (datetime d)
  unfolding decode_hook get_field str_dec
  decode_hook_datetime d = rw (reads_datetime d)

  decode_hook_uuid :
      (u : U)
      → decode_hook py
          (field "__type_code" (num type_uuid) (field "data" (str (py.uuid_text u)) end))
        ≡ ok (uuid u)
  unfolding decode_hook get_field str_dec
  decode_hook_uuid u = rw (reads_uuid u)

  mutual
    unfolding rebuild tree image unreserved encodable

    pub rebuild-tree :
        (v : PyValue A D U)
        → encodable v ≡ true
        → unreserved v ≡ true
        → rebuild (decode_hook py) (tree py v) ≡ ok (image v)
    rebuild-tree (atom a) e u = refl
    rebuild-tree (num n) e u = refl
    rebuild-tree (str s) e u = refl
    rebuild-tree (list xs) e u = rw (rebuild_items-tree xs e u)
    rebuild-tree (tuple xs) e u = rw (rebuild_items-tree xs e u)
    rebuild-tree (dict fs) e u =
        rw (
          rebuild_fields-tree fs e u,
          decode_hook_plain py (image_fields fs) (get_field-image fs u),
        )
    rebuild-tree (datetime d) e u = decode_hook_datetime d
    rebuild-tree (uuid d) e u = decode_hook_uuid d
    rebuild-tree (function s) e u = cc
    rebuild-tree (opaque s) e u = cc
    rebuild-tree (object c m fs) e u = rw (
      rebuild_fields-tree fs e u,
      decode_hook_plain py (image_fields fs) (get_field-image fs u),
      decode_hook_object py c m (image_fields fs),
    )
    rebuild-tree (slotted c m ss) e u = rw (
      rebuild_slots-tree ss e u,
      decode_hook_plain py (image_slots ss) (get_field-image_slots ss u),
      decode_hook_object py c m (image_slots ss),
    )

    rebuild_items-tree :
        (xs : Items A D U)
        → encodable_items xs ≡ true
        → unreserved_items xs ≡ true
        → rebuild_items (decode_hook py) (tree_items py xs) ≡ ok (image_items xs)
    rebuild_items-tree nil e u = refl
    rebuild_items-tree (cons x xs) e u =
        let (e1, e2) = and_both (encodable x) _ e in
        let (u1, u2) = and_both (unreserved x) _ u in
        rw (rebuild-tree x e1 u1, rebuild_items-tree xs e2 u2)

    pub rebuild_fields-tree :
        (fs : Fields A D U)
        → encodable_fields fs ≡ true
        → unreserved_fields fs ≡ true
        → rebuild_fields (decode_hook py) (tree_fields py fs) ≡ ok (image_fields fs)
    rebuild_fields-tree end e u = refl
    rebuild_fields-tree (field k v fs) e u =
        let (e1, e2) = and_both (encodable v) _ e in
        let (_, u1, u2) = and_three (is_reserved k) _ _ u in
        rw (rebuild-tree v e1 u1, rebuild_fields-tree fs e2 u2)

    rebuild_slots-tree :
        (ss : Slots A D U)
        → encodable_slots ss ≡ true
        → unreserved_slots ss ≡ true
        → rebuild_fields (decode_hook py) (tree_slots py ss) ≡ ok (image_slots ss)
    rebuild_slots-tree no_slots e u = refl
    rebuild_slots-tree (unset k ss) e u = rebuild_slots-tree ss e u
    rebuild_slots-tree (slot k v ss) e u =
        let (e1, e2) = and_both (encodable v) _ e in
        let (_, u1, u2) = and_three (is_reserved k) _ _ u in
        rw (rebuild-tree v e1 u1, rebuild_slots-tree ss e2 u2)

-- ===== src/Serialization/Images.antt =====
-- An independent account of src/async_cache/serialization.py: which values it can encode, and what
-- is read back for them.
use async_task_worker.Base.{ℕ, suc, ◌+◌, max, String, Bool, true, false, ◌&&◌, not, str_dec, ite}
use async_task_worker.Serialization.Values.{
  type_datetime, type_custom_object, type_uuid, PyValue, atom, num, str, list, tuple, dict,
  datetime, uuid, function, object, slotted, opaque, Items, nil, cons, Fields, end, field, Slots,
  no_slots, unset, slot, Python, merge,
}

unfoldable pub is_reserved : String → Bool
is_reserved k = ite (str_dec "__type_code" k) true false

module _ {A D U : Type 0} where
  -- No function and no opaque value stands in it.
  unfoldable mutual
    pub encodable : PyValue A D U → Bool
    encodable (function s) = false
    encodable (opaque s) = false
    encodable (list xs) = encodable_items xs
    encodable (tuple xs) = encodable_items xs
    encodable (dict fs) = encodable_fields fs
    encodable (object c m fs) = encodable_fields fs
    encodable (slotted c m ss) = encodable_slots ss
    encodable v = true

    pub encodable_items : Items A D U → Bool
    encodable_items nil = true
    encodable_items (cons x xs) = encodable x && encodable_items xs

    pub encodable_fields : Fields A D U → Bool
    encodable_fields end = true
    encodable_fields (field k v fs) = encodable v && encodable_fields fs

    pub encodable_slots : Slots A D U → Bool
    encodable_slots no_slots = true
    encodable_slots (unset k ss) = encodable_slots ss
    encodable_slots (slot k v ss) = encodable v && encodable_slots ss

  -- No dictionary and no object in it has the key or the attribute `__type_code`.
  unfoldable mutual
    pub unreserved : PyValue A D U → Bool
    unreserved (list xs) = unreserved_items xs
    unreserved (tuple xs) = unreserved_items xs
    unreserved (dict fs) = unreserved_fields fs
    unreserved (object c m fs) = unreserved_fields fs
    unreserved (slotted c m ss) = unreserved_slots ss
    unreserved v = true

    pub unreserved_items : Items A D U → Bool
    unreserved_items nil = true
    unreserved_items (cons x xs) = unreserved x && unreserved_items xs

    pub unreserved_fields : Fields A D U → Bool
    unreserved_fields end = true
    unreserved_fields (field k v fs) = not (is_reserved k) && unreserved v && unreserved_fields fs

    pub unreserved_slots : Slots A D U → Bool
    unreserved_slots no_slots = true
    unreserved_slots (unset k ss) = unreserved_slots ss
    unreserved_slots (slot k v ss) = not (is_reserved k) && unreserved v && unreserved_slots ss

  -- A bound on the depth of the tree that is written for it.
  unfoldable mutual
    pub depth : PyValue A D U → ℕ
    depth (list xs) = suc (depth_items xs)
    depth (tuple xs) = suc (depth_items xs)
    depth (dict fs) = suc (depth_fields fs)
    depth (object c m fs) = 3 + depth_fields fs
    depth (slotted c m ss) = 3 + depth_slots ss
    depth (atom a) = 1
    depth (num n) = 1
    depth (str s) = 1
    depth v = 2

    pub depth_items : Items A D U → ℕ
    depth_items nil = 0
    depth_items (cons x xs) = max (depth x) (depth_items xs)

    pub depth_fields : Fields A D U → ℕ
    depth_fields end = 0
    depth_fields (field k v fs) = max (depth v) (depth_fields fs)

    pub depth_slots : Slots A D U → ℕ
    depth_slots no_slots = 0
    depth_slots (unset k ss) = depth_slots ss
    depth_slots (slot k v ss) = max (depth v) (depth_slots ss)

  abbrev pub class_fields : String → String → Fields A D U
  class_fields cls module_name = field "__type" (str cls) (field "__module" (str module_name) end)

  -- The value that is read back: a tuple becomes a list, and an object a dictionary with
  -- its class and its attributes.
  unfoldable mutual
    pub image : PyValue A D U → PyValue A D U
    image (list xs) = list (image_items xs)
    image (tuple xs) = list (image_items xs)
    image (dict fs) = dict (image_fields fs)
    image (object c m fs) = dict (merge (class_fields c m) (image_fields fs))
    image (slotted c m ss) = dict (merge (class_fields c m) (image_slots ss))
    image v = v

    pub image_items : Items A D U → Items A D U
    image_items nil = nil
    image_items (cons x xs) = cons (image x) (image_items xs)

    pub image_fields : Fields A D U → Fields A D U
    image_fields end = end
    image_fields (field k v fs) = field k (image v) (image_fields fs)

    pub image_slots : Slots A D U → Fields A D U
    image_slots no_slots = end
    image_slots (unset k ss) = image_slots ss
    image_slots (slot k v ss) = field k (image v) (image_slots ss)

  -- The dictionary that is written for an object.
  abbrev pub object_tree : String → String → Fields A D U → PyValue A D U
  object_tree cls module_name fs = dict (
      field "__type_code" (num type_custom_object)
        (field "type" (str cls) (field "module" (str module_name) (field "data" (dict fs) end))))

module _ {A D U : Type 0} (py : Python A D U) where
  -- The tree that is written for a value.
  unfoldable mutual
    pub tree : PyValue A D U → PyValue A D U
    tree (list xs) = list (tree_items xs)
    tree (tuple xs) = list (tree_items xs)
    tree (dict fs) = dict (tree_fields fs)
    tree (datetime d) =
        dict (field "__type_code" (num type_datetime) (field "data" (str (py.isoformat d)) end))
    tree (uuid u) =
        dict (field "__type_code" (num type_uuid) (field "data" (str (py.uuid_text u)) end))
    tree (object c m fs) = object_tree c m (tree_fields fs)
    tree (slotted c m ss) = object_tree c m (tree_slots ss)
    tree v = v

    pub tree_items : Items A D U → Items A D U
    tree_items nil = nil
    tree_items (cons x xs) = cons (tree x) (tree_items xs)

    pub tree_fields : Fields A D U → Fields A D U
    tree_fields end = end
    tree_fields (field k v fs) = field k (tree v) (tree_fields fs)

    pub tree_slots : Slots A D U → Fields A D U
    tree_slots no_slots = end
    tree_slots (unset k ss) = tree_slots ss
    tree_slots (slot k v ss) = field k (tree v) (tree_slots ss)

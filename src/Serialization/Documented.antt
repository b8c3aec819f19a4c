-- ===== src/Serialization/Documented.antt =====
-- What src/async_cache/serialization.py relies on in Python and the MsgPack library.
use async_task_worker.Base.{ℕ, zero, suc, Bool, true, false, ◌≡◌, if◌then◌else◌}
use async_task_worker.Serialization.Values.{
  PyValue, atom, num, str, list, tuple, dict, Items, nil, cons, Fields, end, field, Python, MsgPack,
  Result, ok, error, ◌>>=◌, map_result,
}

module _ {A D U : Type 0} where
  unfoldable pub is_native : PyValue A D U → Bool
  is_native (atom a) = true
  is_native (num n) = true
  is_native (str s) = true
  is_native (list xs) = true
  is_native (tuple xs) = true
  is_native (dict fs) = true
  is_native v = false

  unfoldable pub pack_items :
      (PyValue A D U → Result (PyValue A D U)) → Items A D U → Result (Items A D U)
  pack_items f nil = ok nil
  pack_items f (cons x xs) = let rest = pack_items f xs in f x >>= λ y. map_result (cons y) rest

  unfoldable pub pack_fields :
      (PyValue A D U → Result (PyValue A D U)) → Fields A D U → Result (Fields A D U)
  pack_fields f end = ok end
  pack_fields f (field k v fs) =
      let rest = pack_fields f fs in f v >>= λ w. map_result (field k w) rest

  -- A natively supported value, with its parts prepared by `f`.
  unfoldable pub pack_parts :
      (PyValue A D U → Result (PyValue A D U)) → PyValue A D U → Result (PyValue A D U)
  unfolding pack_items pack_fields
  pack_parts f (list xs) = map_result list (pack_items f xs)
  pack_parts f (tuple xs) = map_result list (pack_items f xs)
  pack_parts f (dict fs) = map_result dict (pack_fields f fs)
  pack_parts f (atom a) = ok (atom a)
  pack_parts f (num n) = ok (num n)
  pack_parts f (str s) = ok (str s)
  pack_parts f v = error "can not serialize"

  -- The tree that packb writes, for a limit on its depth: each value that is not natively supported
  -- is replaced, once, by what the hook answers. A tuple is written as a list.
  unfoldable pub prepare :
      ℕ → (PyValue A D U → Result (PyValue A D U)) → PyValue A D U → Result (PyValue A D U)
  prepare zero hook v = error "recursion limit exceeded"
  prepare (suc n) hook v =
      let parts = pack_parts (prepare n hook) in if is_native v then parts v else (hook v >>= parts)

  module _ (hook : Fields A D U → Result (PyValue A D U)) where
    -- The value that unpackb makes of such a tree: the hook gets each dictionary, the inner first.
    unfoldable mutual
      pub rebuild : PyValue A D U → Result (PyValue A D U)
      rebuild (list xs) = map_result list (rebuild_items xs)
      rebuild (dict fs) = rebuild_fields fs >>= hook
      rebuild v = ok v

      pub rebuild_items : Items A D U → Result (Items A D U)
      rebuild_items nil = ok nil
      rebuild_items (cons x xs) = rebuild x >>= λ y. map_result (cons y) (rebuild_items xs)

      pub rebuild_fields : Fields A D U → Result (Fields A D U)
      rebuild_fields end = ok end
      rebuild_fields (field k v fs) = rebuild v >>= λ w. map_result (field k w) (rebuild_fields fs)

-- The documented behaviour: `dump` is the encoding of a tree, `limit` the depth that packb allows.
pub record Documented {B A D U : Type 0} (py : Python A D U) (msgpack : MsgPack B A D U)
    : Type 0 where
  pub limit : ℕ
  pub dump : PyValue A D U → B
  pub packs :
      (hook : PyValue A D U → Result (PyValue A D U)) (v : PyValue A D U)
      → msgpack.packb hook v ≡ map_result dump (prepare limit hook v)
  pub unpacks :
      (packing : PyValue A D U → Result (PyValue A D U))
      (hook : Fields A D U → Result (PyValue A D U)) (v tree : PyValue A D U)
      → prepare limit packing v ≡ ok tree
      → msgpack.unpackb hook (dump tree) ≡ rebuild hook tree
  pub reads_datetime : (d : D) → py.fromisoformat (py.isoformat d) ≡ ok d
  pub reads_uuid : (u : U) → py.uuid_of (py.uuid_text u) ≡ ok u

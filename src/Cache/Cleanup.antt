-- ===== src/Cache/Cleanup.antt =====
-- `_cleanup_stale_mappings` of src/async_cache/core.py.
use async_task_worker.Base.{
  ℕ, String, ◌≡◌, ◌≢◌, refl, Bool, true, false, not, ◌&&◌, Option, none, some, arith, ite, str_dec,
  if◌then◌else◌, Option-cases, inl, inr, ◌∙◌, ap, List, [], ◌∷◌,
}
use async_task_worker.Base.Dict
use async_task_worker.Base.Dict.{Dict, is_some, has, has-keys, contains}
use async_task_worker.Memory.{CacheAdapter}
use async_task_worker.Cache.{
  Library, AsyncCache, forget_key, forget_entry, find_stale, drop_stale, cleanup_stale_mappings,
}
use async_task_worker.Cache.Lawful.{IsLawful}

module _ {X V S : Type 0} (lib : Library X V) (adapter : CacheAdapter V S)
    (lawful : IsLawful adapter) where
  open lawful use {peek, get_peek, get_keeps}

  -- A mapping is stale if its key is not empty and the cache does not answer it.
  abbrev pub stale : ℕ → S → Option String → Bool
  stale now s none = false
  stale now s (some key) = ite (str_dec key "") false (not (is_some (peek now key s)))

  abbrev listed : String → List (String × String) → Bool
  listed j [] = false
  listed j ((i, key) ∷ rest) = ite (str_dec j i) true (listed j rest)

  -- The answers that the loop gets do not change what it would get later.
  stale_kept :
      (now : ℕ) (key : String) (s : S) (o : Option String)
      → stale now (adapter.get now key s).0 o ≡ stale now s o
  stale_kept now key s none = refl
  stale_kept now key s (some k) = rw (get_keeps now key k s)

  abbrev with_pair : Option V → String × String → List (String × String) → List (String × String)
  with_pair (some v) p rest = rest
  with_pair none p rest = p ∷ rest

  find_stale_empty :
      (now : ℕ) (i : String) (is : List String) (map : Dict String) (s : S) (key : String)
      → Dict.lookup i map ≡ some key
      → key ≡ ""
      → find_stale lib adapter now (i ∷ is) map s ≡ find_stale lib adapter now is map s
  unfolding find_stale
  find_stale_empty now i is map s key h p = ground arith

  find_stale_checked :
      (now : ℕ) (i : String) (is : List String) (map : Dict String) (s : S) (key : String)
      → Dict.lookup i map ≡ some key
      → key ≢ ""
      → find_stale lib adapter now (i ∷ is) map s ≡ (
        (find_stale lib adapter now is map (adapter.get now key s).0).0,
        with_pair
            (adapter.get now key s).1
            (i, key)
            (find_stale lib adapter now is map (adapter.get now key s).0).1,
      )
  unfolding find_stale
  find_stale_checked now i is map s key h p = ground arith

  listed-find_stale :
      (now : ℕ) (is : List String) (map : Dict String) (s : S) (j : String)
      → listed j (find_stale lib adapter now is map s).1
        ≡ (has j is && stale now s (Dict.lookup j map))
  unfolding find_stale
  listed-find_stale now [] map s j = refl
  listed-find_stale now (i ∷ is) map s j = elim (Option-cases (Dict.lookup i map)) [
    | inl h ↦ rw (h, find_stale) (ground (arith, h, listed-find_stale now is map s j))
    | inr (key, h) ↦ elim (str_dec key "") [
      | yes p ↦
          rw (find_stale_empty now i is map s key h p)
            (ground (arith, h, listed-find_stale now is map s j))
      | no p ↦
          let s' = (adapter.get now key s).0 in
          rw (find_stale_checked now i is map s key h p) (
            ground (
              arith,
              h,
              listed-find_stale now is map s' j,
              stale_kept now key s (Dict.lookup j map),
              get_peek now key s,
            ))
    ]
  ]

  find_stale_peek :
      (now : ℕ) (is : List String) (map : Dict String) (s : S) (k : String)
      → peek now k (find_stale lib adapter now is map s).0 ≡ peek now k s
  unfolding find_stale
  find_stale_peek now [] map s k = refl
  find_stale_peek now (i ∷ is) map s k = elim (Option-cases (Dict.lookup i map)) [
    | inl h ↦ rw (h, find_stale) (find_stale_peek now is map s k)
    | inr (key, h) ↦ elim (str_dec key "") [
      | yes p ↦ rw (find_stale_empty now i is map s key h p) (find_stale_peek now is map s k)
      | no p ↦
          rw (find_stale_checked now i is map s key h p)
            (find_stale_peek now is map (adapter.get now key s).0 k ∙ get_keeps now key k s)
    ]
  ]

  drop_stale-lookup :
      (l : List (String × String)) (c : AsyncCache S) (j : String)
      → Dict.lookup j (drop_stale lib adapter l c).entry_key_map
        ≡ (if listed j l then none else Dict.lookup j c.entry_key_map)
  unfolding drop_stale
  drop_stale-lookup [] c j = refl
  drop_stale-lookup ((i, key) ∷ rest) c j = ground (
    arith,
    Dict.lookup-delete i j c.entry_key_map,
    drop_stale-lookup rest (forget_key lib adapter key (forget_entry lib adapter (some i) c)) j,
  )

  drop_stale_adapter :
      (l : List (String × String)) (c : AsyncCache S)
      → (drop_stale lib adapter l c).adapter ≡ c.adapter
  unfolding drop_stale
  drop_stale_adapter [] c = refl
  drop_stale_adapter ((i, key) ∷ rest) c =
      drop_stale_adapter rest (forget_key lib adapter key (forget_entry lib adapter (some i) c))

  -- The cleanup drops the mapping of an entry id exactly if its key is not empty and the cache does
  -- not hold it any more, and it changes no answer of the cache.
  pub cleanup_drops_stale :
      (now : ℕ) (c : AsyncCache S) (j k : String)
      → (Dict.lookup j (cleanup_stale_mappings lib adapter now c).entry_key_map ≡ (
          if stale now c.adapter (Dict.lookup j c.entry_key_map)
          then none
          else Dict.lookup j c.entry_key_map))
        × (peek now k (cleanup_stale_mappings lib adapter now c).adapter ≡ peek now k c.adapter)
  unfolding cleanup_stale_mappings
  cleanup_drops_stale now c j k =
      let map = c.entry_key_map in
      let r = find_stale lib adapter now (Dict.keys map) map c.adapter in
      let c' = record c { adapter = r.0 } in
      (
        ground (
          arith,
          drop_stale-lookup r.1 c' j,
          listed-find_stale now (Dict.keys map) map c.adapter j,
          has-keys j map,
        ),
        ap (peek now k) (drop_stale_adapter r.1 c')
            ∙ find_stale_peek now (Dict.keys map) map c.adapter k,
      )

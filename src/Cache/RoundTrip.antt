-- ===== src/Cache/RoundTrip.antt =====
-- Reading back what was stored in `AsyncCache` of src/async_cache/core.py.
use async_task_worker.Base.{
  ℕ, ◌≤◌, String, ◌≡◌, ◌≢◌, refl, true, false, Option, none, some, arith, if◌then◌else◌, ltb,
  Bool-cases, inl, inr, ◌∙◌, ap,
}
use async_task_worker.Base.Dict
use async_task_worker.Base.Dict.{Set}
use async_task_worker.Memory.{CacheAdapter, expired, expiry_at}
use async_task_worker.KeyUtils.{Value, made, KeyFn}
use async_task_worker.Cache.{
  Library, Entry, AsyncCache, ok, build_context, validate_key, key_of, validated_key, note_entry,
  or_default, get, set,
}
use async_task_worker.Cache.Lawful.{IsLawful}

module _ {X V S : Type 0} (lib : Library X V) (adapter : CacheAdapter V S) where
  -- A key that is not empty passes the validation, which changes the generated keys alone.
  pub validated_made :
      (f : Option (KeyFn X)) (n : ℕ) (context : Value X) (c : AsyncCache S) (key : String)
      → key_of lib adapter f n context ≡ made key
      → key ≢ ""
      → (g : Option Set) × (validated_key lib adapter f n context c
          ≡ some (record c { generated_keys = g }, key))
  unfolding validated_key validate_key
  validated_made f n context c key e full = elim (Bool-cases c.validate_keys) [
    | inr h ↦ (c.generated_keys, ground (arith, e, h))
    | inl h ↦ (
      elim c.generated_keys [ none ↦ none | some keys ↦ some (Dict.add key keys) ],
      ground (arith, e, h, full),
    )
  ]

  pub note-adapter :
      (i : Option String) (key : String) (c : AsyncCache S)
      → ((note_entry lib adapter i key c).adapter ≡ c.adapter)
        × ((note_entry lib adapter i key c).enabled ≡ c.enabled)
  note-adapter none key c = (refl, refl)
  note-adapter (some i) key c = (refl, refl)

  pub get_answer :
      (now n : ℕ) (entry : Entry X) (f : Option (KeyFn X)) (c c1 : AsyncCache S) (key : String)
      → c.enabled ≡ true
      → validated_key lib adapter f n (build_context entry) c ≡ some (c1, key)
      → (get lib adapter now n entry f c).1 ≡ ok (adapter.get now key c1.adapter).1
  unfolding get
  get_answer now n entry f c c1 key on e =
      rw (on, e, get)
        (ap (λ s. ok (adapter.get now key s).1) (note-adapter entry.entry_id key c1).0)

  pub get_state :
      (now n : ℕ) (entry : Entry X) (f : Option (KeyFn X)) (c c1 : AsyncCache S) (key : String)
      → c.enabled ≡ true
      → validated_key lib adapter f n (build_context entry) c ≡ some (c1, key)
      → (get lib adapter now n entry f c).0.adapter ≡ (adapter.get now key c1.adapter).0
  unfolding get
  get_state now n entry f c c1 key on e =
      rw (on, e, get) (ap (λ s. (adapter.get now key s).0) (note-adapter entry.entry_id key c1).0)

  -- The cache after a `set` that stores the result.
  pub set_stored :
      (now later n size : ℕ) (entry : Entry X) (result : V) (ttl : Option ℕ) (f : Option (KeyFn X))
      (c c1 : AsyncCache S) (s : S) (key : String)
      → c.enabled ≡ true
      → lib.encoded_size c.fallback_to_str result ≡ some size
      → size ≤ c.max_serialized_size
      → validated_key lib adapter f n (build_context entry) c ≡ some (c1, key)
      → adapter.set now later key result (or_default lib adapter ttl c.default_ttl) c1.adapter
        ≡ some s
      → set lib adapter now later n entry result ttl f c
        ≡ (record (note_entry lib adapter entry.entry_id key c1) { adapter = s }, ok true)
  unfolding set
  set_stored now later n size entry result ttl f c c1 s key on enc fits e a =
      let small : ltb c.max_serialized_size size ≡ false = ground arith in
      let b =
        ap (adapter.set now later key result (or_default lib adapter ttl c.default_ttl))
          (note-adapter entry.entry_id key c1).0 in
      rw (on, enc, small, e, b ∙ a, set)

  module _ (lawful : IsLawful adapter) where
    open lawful use {Valid, peek, get_peek, set_peek, delete_peek}

    -- A result that was stored under a key is read back by every later `get` whose key function
    -- makes the same key, until its time to live has passed, and not after; whatever entry ids, and
    -- whatever calls, the two entries are for.
    pub set_get :
        (now later at n n' size : ℕ) (entry entry' : Entry X) (result : V) (ttl : Option ℕ)
        (f f' : Option (KeyFn X)) (c : AsyncCache S) (key : String)
        → c.enabled ≡ true
        → Valid c.adapter
        → lib.encoded_size c.fallback_to_str result ≡ some size
        → size ≤ c.max_serialized_size
        → key_of lib adapter f n (build_context entry) ≡ made key
        → key_of lib adapter f' n' (build_context entry') ≡ made key
        → key ≢ ""
        → ((set lib adapter now later n entry result ttl f c).1 ≡ ok true)
          × ((get lib adapter at n' entry' f'
                (set lib adapter now later n entry result ttl f c).0).1
              ≡ ok (
                  if expired (expiry_at now (or_default lib adapter ttl c.default_ttl)) at
                  then none
                  else some result))
    set_get now later at n n' size entry entry' result ttl f f' c key on v enc fits e e' full =
        let life = or_default lib adapter ttl c.default_ttl in
        let (g, made1) = validated_made f n (build_context entry) c key e full in
        let (s, a, w, r) = set_peek now later at key result life c.adapter v in
        let stored =
          set_stored now later n size entry result ttl f c (record c { generated_keys = g }) s key
            on enc fits made1 a in
        let c2 =
          record (note_entry lib adapter entry.entry_id key (record c { generated_keys = g })) {
            adapter = s;
          } in
        let (h, made2) = validated_made f' n' (build_context entry') c2 key e' full in
        let live = (note-adapter entry.entry_id key (record c { generated_keys = g })).1 ∙ on in
        (
          ap (λ p. p.1) stored,
          rw stored (
              get_answer at n' entry' f' c2 (record c2 { generated_keys = h }) key live made2
              ∙ ap ok (get_peek at key s ∙ r)),
        )

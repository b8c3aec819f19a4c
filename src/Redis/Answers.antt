-- ===== src/Redis/Answers.antt =====
-- src/async_cache/adapters/redis.py over a server that is connected.
use Prim.Native.String.{◌++◌}
use text.Mathlib.TextLemmas.{append_cancel_left}
use async_task_worker.Base.{
  ℕ, zero, suc, ◌+◌, ◌*◌, ◌≡◌, ◌≢◌, refl, ap, sym, ◌∙◌, String, Bool, true, false, Option, none,
  some, List, [], ◌∷◌, ltb, if◌then◌else◌, ite, str_dec, if_pos, if_neg, ◌⊎◌, lt→ltb, Option-cases,
  Bool-cases, inl, inr,
}
use async_task_worker.Base.Dict.{has}
use async_task_worker.Serialization.{ok, error}
use async_task_worker.Redis.{RedisClient, Serializer, decoded, get, set, delete, clear}
use async_task_worker.Serialization.Fallback.{Result-cases}
use async_task_worker.Redis.Server.{Connected, is_plain}

-- When an entry with this time to live is still there at a time.
abbrev pub lives : ℕ → Option ℕ → ℕ → Bool
lives now none at = true
lives now (some ttl) at = if ltb (now + ttl * 1000) at then false else true

ap-ite : {P A B : Type 0} (f : A → B) (d : Dec P) (x y : A) → f (ite d x y) ≡ ite d (f x) (f y)
ap-ite f (yes p) x y = refl
ap-ite f (no p) x y = refl

ap-if :
    {A B : Type 0} (f : A → B) (c : Bool) (x y : A)
    → f (if c then x else y) ≡ (if c then f x else f y)
ap-if f true x y = refl
ap-if f false x y = refl

if_flip :
    {A : Type 0} (c : Bool) (x y : A)
    → (if c then x else y) ≡ (if (if c then false else true) then y else x)
if_flip true x y = refl
if_flip false x y = refl

if-ite : {P A : Type 0} (d : Dec P) (x y : A) → (if ite d true false then x else y) ≡ ite d x y
if-ite (yes p) x y = refl
if-ite (no p) x y = refl

none_left :
    {A : Type 0} (listed : Bool) (o : Option A)
    → (o ≢ none → listed ≡ true)
    → (if listed then none else o) ≡ none
none_left true o h = refl
none_left false none h = refl
none_left false (some a) h = cc (h (λ x. cc))

prefixed :
    {A : Type 0} (p j k : String) (x y : A)
    → ite (str_dec (p ++ j) (p ++ k)) x y ≡ ite (str_dec j k) x y
prefixed p j k x y = elim (str_dec j k) [
  | yes e ↦
      if_pos (str_dec (p ++ j) (p ++ k)) (ap (λ i. p ++ i) e) x y ∙ sym (if_pos (str_dec j k) e x y)
  | no d ↦
      if_neg (str_dec (p ++ j) (p ++ k)) (λ e. d (append_cancel_left p j k e)) x y
      ∙ sym (if_neg (str_dec j k) d x y)
]

module _ {V B S : Type 0} (serializer : Serializer V B) {client : RedisClient B S}
    (server : Connected client) (key_prefix : String) where
  open server use {
    stored, gets, sets, setexes, setex_zero, deletes, counts, matches, scans, matches_prefix,
    matches_only,
  }

  -- `get` reads what the server holds.
  pub get-stored :
      (at : ℕ) (k : String) (s : S)
      → get serializer client key_prefix at k s
        ≡ decoded serializer client key_prefix (stored at (key_prefix ++ k) s)
  unfolding get
  get-stored at k s = rw (gets at (key_prefix ++ k) s, get)

  set-stored :
      (now at : ℕ) (k j : String) (v : V) (b : B) (ttl : Option ℕ) (s : S)
      → serializer.encode v ≡ ok b
      → ttl ≢ some 0
      → stored at (key_prefix ++ j) (set serializer client key_prefix now k v ttl s)
        ≡ ite
            (str_dec j k)
            (if lives now ttl at then some b else none)
            (stored at (key_prefix ++ j) s)
  unfolding set
  set-stored now at k j v b none s e h =
      rw (e, set)
        (sets now at (key_prefix ++ k) (key_prefix ++ j) b s
          ∙ prefixed key_prefix j k (some b) (stored at (key_prefix ++ j) s))
  set-stored now at k j v b (some zero) s e h = absurd (h refl)
  set-stored now at k j v b (some (suc ttl)) s e h =
      rw (e, set)
        (setexes now at ttl (key_prefix ++ k) (key_prefix ++ j) b s
          ∙ prefixed key_prefix j k (if ltb (now + suc ttl * 1000) at then none else some b)
              (stored at (key_prefix ++ j) s)
          ∙ ap (λ (x : Option B). ite (str_dec j k) x (stored at (key_prefix ++ j) s))
              (if_flip (ltb (now + suc ttl * 1000) at) none (some b)))

  -- A value that the serializer gives back is read under its key as long as it lives, and every
  -- other key answers what it answered.
  pub set_get :
      (now at : ℕ) (k j : String) (v : V) (b : B) (ttl : Option ℕ) (s : S)
      → serializer.encode v ≡ ok b
      → serializer.decode b ≡ ok v
      → ttl ≢ some 0
      → get serializer client key_prefix at j (set serializer client key_prefix now k v ttl s)
        ≡ ite
            (str_dec j k)
            (if lives now ttl at then some v else none)
            (get serializer client key_prefix at j s)
  set_get now at k j v b ttl s e d h =
      let read : Option B → Option V = decoded serializer client key_prefix in
      let found : read (some b) ≡ some v = rw (d, decoded) in
      let live =
        ap-if read (lives now ttl at) (some b) none
        ∙ ap (λ (x : Option V). if lives now ttl at then x else none) found in
      get-stored at j (set serializer client key_prefix now k v ttl s)
      ∙ ap read (set-stored now at k j v b ttl s e h)
      ∙ ap-ite read (str_dec j k) (if lives now ttl at then some b else none)
          (stored at (key_prefix ++ j) s)
      ∙ rw (live, get-stored at j s)

  -- A value that the serializer refuses, or one with a time to live of zero, changes nothing.
  pub set_skips :
      (now : ℕ) (k : String) (v : V) (ttl : Option ℕ) (s : S)
      → ((x : String) × (serializer.encode v ≡ error x)) ⊎ (ttl ≡ some 0)
      → set serializer client key_prefix now k v ttl s ≡ s
  unfolding set
  set_skips now k v ttl s (inl (x, e)) = rw (e, set)
  set_skips now k v ttl s (inr e) = elim (Result-cases (serializer.encode v)) [
    | inl (b, r) ↦ rw (r, e, set) (setex_zero now (key_prefix ++ k) b s)
    | inr (x, r) ↦ rw (r, set)
  ]

  deleted-stored :
      (at : ℕ) (k j : String) (s : S)
      → stored at (key_prefix ++ j) (client.delete ((key_prefix ++ k) ∷ []) s).0
        ≡ ite (str_dec j k) none (stored at (key_prefix ++ j) s)
  deleted-stored at k j s =
      deletes at (key_prefix ++ j) ((key_prefix ++ k) ∷ []) s
      ∙ if-ite (str_dec (key_prefix ++ j) (key_prefix ++ k)) none (stored at (key_prefix ++ j) s)
      ∙ prefixed key_prefix j k none (stored at (key_prefix ++ j) s)

  -- After a `delete` the key is not found and every other key answers what it answered; the answer is
  -- true if the key was found before.
  pub delete_get :
      (at : ℕ) (k j : String) (s : S)
      → (get serializer client key_prefix at j (delete serializer client key_prefix k s).0
          ≡ ite (str_dec j k) none (get serializer client key_prefix at j s))
        × ((get serializer client key_prefix at k s ≡ none)
            ⊎ ((delete serializer client key_prefix k s).1 ≡ true))
  unfolding delete
  delete_get at k j s =
      let read : Option B → Option V = decoded serializer client key_prefix in
      let (n, e, some_left, nothing_left) = counts (key_prefix ++ k) s in
      (
        get-stored at j (client.delete ((key_prefix ++ k) ∷ []) s).0
            ∙ ap read (deleted-stored at k j s)
            ∙ ap-ite read (str_dec j k) none (stored at (key_prefix ++ j) s)
            ∙ rw (get-stored at j s),
        elim (Option-cases (stored at (key_prefix ++ k) s)) [
          | inl h ↦ inl (get-stored at k s ∙ ap read h)
          | inr (b, h) ↦ inr (rw e (lt→ltb 0 n (some_left at (λ x. cc))))
        ],
      )

  cleared-stored :
      (ks : List String) (at : ℕ) (j : String) (s : S)
      → client.scan_iter (key_prefix ++ "*") s ≡ ok ks
      → stored at j (clear serializer client key_prefix s)
        ≡ (if has j ks then none else stored at j s)
  unfolding clear
  cleared-stored [] at j s e = rw (e, clear)
  cleared-stored (k ∷ ks) at j s e = rw (e, clear) (deletes at j (k ∷ ks) s)

  -- Where the prefix has no character with a meaning in a pattern, no key of the cache is found after
  -- `clear`, and every key without the prefix is stored as it was.
  pub clear_get :
      (at : ℕ) (k j : String) (s : S)
      → is_plain key_prefix ≡ true
      → ((i : String) → j ≢ key_prefix ++ i)
      → (get serializer client key_prefix at k (clear serializer client key_prefix s) ≡ none)
        × (stored at j (clear serializer client key_prefix s) ≡ stored at j s)
  clear_get at k j s plain foreign =
      let (ks, e, only, all) = scans (key_prefix ++ "*") s in
      (
        get-stored at k (clear serializer client key_prefix s)
            ∙ ap (decoded serializer client key_prefix) (
                cleared-stored ks at (key_prefix ++ k) s e
                ∙ none_left (has (key_prefix ++ k) ks) (stored at (key_prefix ++ k) s)
                    (all at (key_prefix ++ k) (matches_prefix key_prefix k plain))),
        cleared-stored ks at j s e ∙ (elim (Bool-cases (has j ks)) [
          | inl h ↦
              let (i, own) = matches_only key_prefix j plain (only j h) in absurd (foreign i own)
          | inr h ↦ rw h
        ]),
      )

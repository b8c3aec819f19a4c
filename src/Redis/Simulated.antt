-- ===== src/Redis/Simulated.antt =====
-- A Redis server in memory, which has the documented behaviour that
-- src/async_cache/adapters/redis.py relies on.
use Prim.Native.String.{◌++◌}
use Prim.Native.Char.{Char, code}
use text.Mathlib.TextLemmas.{cons-append, nil-append}
use text.Mathlib.TextEquality.{Char-path}
use async_task_worker.Base.{
  ℕ, zero, suc, ◌+◌, ◌*◌, ◌<◌, ◌≡◌, ◌≢◌, refl, ap, ◌∙◌, sym, String, Bool, true, false, ◌&&◌,
  Option, none, some, List, [], ◌∷◌, ltb, if◌then◌else◌, ite, str_dec, ◌==◌, arith, Option-cases,
  Bool-cases, inl, inr,
}
use async_task_worker.Base.Dict
use async_task_worker.Base.Dict.{Dict, contains, has, has-keys, keys}
use async_task_worker.Memory.{expired}
use async_task_worker.Serialization.{Result, ok, error}
use async_task_worker.Redis.{RedisClient}
use async_task_worker.Redis.Server.{Connected}

-- The patterns that end in a star.
starred : String → String → Bool
starred String.[] k = false
starred (String.◌∷◌ c String.[]) k = code c == b'*'
starred (String.◌∷◌ c (String.◌∷◌ c' p)) String.[] = false
starred (String.◌∷◌ c (String.◌∷◌ c' p)) (String.◌∷◌ d k) =
    let rest = starred (String.◌∷◌ c' p) k in if code c == code d then rest else false

starred-more :
    (c d : Char) (p k : String)
    → starred (String.◌∷◌ c (p ++ "*")) (String.◌∷◌ d k)
      ≡ (if code c == code d then starred (p ++ "*") k else false)
unfolding starred
starred-more c d String.[] k = refl
starred-more c d (String.◌∷◌ e p) k = rw (cons-append e p "*")

starred_empty : (c : Char) (p : String) → starred (String.◌∷◌ c (p ++ "*")) String.[] ≡ false
unfolding starred
starred_empty c String.[] = refl
starred_empty c (String.◌∷◌ e p) = rw (cons-append e p "*")

starred_prefix : (p i : String) → starred (p ++ "*") (p ++ i) ≡ true
unfolding starred
starred_prefix String.[] i = refl
starred_prefix (String.◌∷◌ c p) i =
    rw (cons-append c p "*", cons-append c p i, starred-more c c p (p ++ i), starred_prefix p i)
      (ground arith)

starred_only : (p k : String) → starred (p ++ "*") k ≡ true → (i : String) × (k ≡ p ++ i)
starred_only String.[] k h = (k, sym (nil-append k))
starred_only (String.◌∷◌ c p) String.[] h =
    cc (h, ap (λ q. starred q "") (cons-append c p "*"), starred_empty c p)
starred_only (String.◌∷◌ c p) (String.◌∷◌ d k) h =
    let e =
      sym (ap (λ q. starred q (String.◌∷◌ d k)) (cons-append c p "*") ∙ starred-more c d p k) ∙ h in
    elim (Bool-cases (code c == code d)) [
      | inl same ↦
          let (i, own) = starred_only p k (ground (arith, e, same)) in
          (
            i,
            ap (λ q. String.◌∷◌ d q) own
                ∙ ap (λ x. String.◌∷◌ x (p ++ i)) (Char-path d c (ground (arith, same)))
                ∙ sym (cons-append c p i),
          )
      | inr other ↦ cc (e, other)
    ]

matching : String → List String → List String
matching pattern [] = []
matching pattern (k ∷ ks) =
    let rest = matching pattern ks in if starred pattern k then k ∷ rest else rest

has-matching :
    (pattern k : String) (ks : List String)
    → has k (matching pattern ks) ≡ (starred pattern k && has k ks)
unfolding matching
has-matching pattern k [] = ground arith
has-matching pattern k (j ∷ js) = elim (str_dec k j) [
  | yes e ↦ ground (arith, has-matching pattern k js, ap (starred pattern) e)
  | no d ↦ ground (arith, has-matching pattern k js)
]

module _ {B : Type 0} where
  stored_in : ℕ → String → Dict (B × Option ℕ) → Option B
  stored_in at k s = elim (Dict.lookup k s) [
    | none ↦ none
    | some (b, expiry) ↦ if expired expiry at then none else some b
  ]

  stored_after :
      (at : ℕ) (j k : String) (b : B) (expiry : Option ℕ) (s : Dict (B × Option ℕ))
      → stored_in at j (Dict.insert k (b, expiry) s)
        ≡ ite (str_dec j k) (if expired expiry at then none else some b) (stored_in at j s)
  unfolding stored_in
  stored_after at j k b expiry s = ground (arith, Dict.lookup-insert k j (b, expiry) s)

  delete_all : List String → Dict (B × Option ℕ) → Dict (B × Option ℕ)
  delete_all [] s = s
  delete_all (k ∷ ks) s = delete_all ks (Dict.delete k s)

  stored-delete_all :
      (at : ℕ) (j : String) (ks : List String) (s : Dict (B × Option ℕ))
      → stored_in at j (delete_all ks s) ≡ (if has j ks then none else stored_in at j s)
  unfolding stored_in delete_all
  stored-delete_all at j [] s = refl
  stored-delete_all at j (k ∷ ks) s =
      stored-delete_all at j ks (Dict.delete k s) ∙ ground (arith, Dict.lookup-delete k j s)

  -- How many of the keys are there.
  count_present : List String → Dict (B × Option ℕ) → ℕ
  count_present [] s = 0
  count_present (k ∷ ks) s =
      let rest = count_present ks (Dict.delete k s) in if contains k s then 1 + rest else rest

  setex_in : ℕ → String → ℕ → B → Dict (B × Option ℕ) → Dict (B × Option ℕ) × Result (Unit {0})
  setex_in now k zero b s = (s, error "invalid expire time in 'setex' command")
  setex_in now k (suc ttl) b s = (Dict.insert k (b, some (now + suc ttl * 1000)) s, ok tt)

  unfoldable pub simulated : RedisClient B (Dict (B × Option ℕ))
  unfolding stored_in setex_in delete_all count_present matching starred
  simulated = record {
    get = λ now k s. ok (stored_in now k s);
    set = λ now k b s. (Dict.insert k (b, none) s, ok tt);
    setex = setex_in;
    delete = λ ks s. (delete_all ks s, ok (count_present ks s));
    scan_iter = λ pattern s. ok (matching pattern (keys s));
    close = λ s. (s, ok tt);
  }

  -- Nothing is stored under a key that the dictionary does not hold.
  absent :
      (at : ℕ) (k : String) (s : Dict (B × Option ℕ))
      → Dict.lookup k s ≡ none
      → stored_in at k s ≡ none
  unfolding stored_in
  absent at k s h = rw (h, stored_in)

  present_first :
      (k : String) (b : B) (expiry : Option ℕ) (s : Dict (B × Option ℕ))
      → Dict.lookup k s ≡ some (b, expiry)
      → stored_in 0 k s ≡ some b
  unfolding stored_in
  present_first k b none s h = rw (h, stored_in)
  present_first k b (some e) s h = ground (arith, h)

  count_absent :
      (k : String) (s : Dict (B × Option ℕ)) → Dict.lookup k s ≡ none → count_present (k ∷ []) s ≡ 0
  unfolding count_present
  count_absent k s h = rw (h, count_present)

  count_found :
      (k : String) (v : B × Option ℕ) (s : Dict (B × Option ℕ))
      → Dict.lookup k s ≡ some v
      → 0 < count_present (k ∷ []) s
  unfolding count_present
  count_found k v s h = rw (h, count_present) (omega arith)

  simulated_counts :
      (k : String) (s : Dict (B × Option ℕ))
      → (n : ℕ) × ((simulated.delete (k ∷ []) s).1 ≡ ok n)
        × ((at : ℕ) → stored_in at k s ≢ none → 0 < n)
        × (((at : ℕ) → stored_in at k s ≡ none) → n ≡ 0)
  unfolding simulated
  simulated_counts k s = (
    count_present (k ∷ []) s,
    refl,
    λ at h. elim (Option-cases (Dict.lookup k s)) [
      | inl gone ↦ absurd (h (absent at k s gone))
      | inr (v, held) ↦ count_found k v s held
    ],
    λ h. elim (Option-cases (Dict.lookup k s)) [
      | inl gone ↦ count_absent k s gone
      | inr ((b, expiry), held) ↦ cc (h 0, present_first k b expiry s held)
    ],
  )

  simulated_scans :
      (pattern : String) (s : Dict (B × Option ℕ))
      → (ks : List String) × (simulated.scan_iter pattern s ≡ ok ks)
        × ((k : String) → has k ks ≡ true → starred pattern k ≡ true)
        × ((at : ℕ) (k : String)
            → starred pattern k ≡ true
            → stored_in at k s ≢ none
            → has k ks ≡ true)
  unfolding simulated
  simulated_scans pattern s = (
    matching pattern (keys s),
    refl,
    λ k h. ground (arith, has-matching pattern k (keys s), h),
    λ at k h held.
        ground (arith, has-matching pattern k (keys s), has-keys k s, h, absent at k s, held),
  )

  simulated_setexes :
      (now at ttl : ℕ) (k j : String) (b : B) (s : Dict (B × Option ℕ))
      → stored_in at j (simulated.setex now k (suc ttl) b s).0
        ≡ ite
            (str_dec j k)
            (if ltb (now + suc ttl * 1000) at then none else some b)
            (stored_in at j s)
  unfolding simulated
  simulated_setexes now at ttl k j b s = stored_after at j k b (some (now + suc ttl * 1000)) s

  simulated_zero :
      (now : ℕ) (k : String) (b : B) (s : Dict (B × Option ℕ)) → (simulated.setex now k 0 b s).0 ≡ s
  unfolding simulated
  simulated_zero now k b s = refl

  pub simulated-Connected : Connected simulated
  unfolding simulated
  simulated-Connected = record {
    stored = stored_in;
    gets = λ now k s. refl;
    sets = λ now at k j b s. stored_after at j k b none s;
    setexes = simulated_setexes;
    setex_zero = simulated_zero;
    deletes = stored-delete_all;
    counts = simulated_counts;
    matches = starred;
    scans = simulated_scans;
    matches_prefix = λ p i h. starred_prefix p i;
    matches_only = λ p k h. starred_only p k;
  }

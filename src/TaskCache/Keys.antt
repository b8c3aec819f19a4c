-- ===== src/TaskCache/Keys.antt =====
-- The keys that src/async_task_worker/adapters/cache_adapter.py and src/async_task_worker/core.py
-- make for the cache.
use Prim.Native.String.{◌++◌}
use async_task_worker.Base.{String, ◌≡◌, refl, Option, none, some, str_dec, ap, ◌∙◌, sym, ◌↔◌}
use package.text.Mathlib.TextLemmas.{append_cancel_left}
use async_task_worker.KeyUtils.{Value, text, dict, Fields, made}
use async_task_worker.Cache.{Entry, build_context}
use async_task_worker.TaskCache.{default_key_fn, normal_cache_key_fn}

module _ {X : Type 0} (show : Value X → String) where
  abbrev pub entry_of : String → Value X → Fields X → Option String → Option (Value X) → Entry X
  entry_of f args kwargs i m = record {
    fn_name = f;
    args = args;
    kwargs = kwargs;
    entry_id = i;
    metadata = m;
  }

  normal_key :
      (f : String) (args : Value X) (kwargs : Fields X) (i : Option String) (m : Option (Value X))
      → normal_cache_key_fn show (build_context (entry_of f args kwargs i m))
        ≡ made ("none" ++ ":" ++ show args ++ ":" ++ show (dict kwargs))
  unfolding normal_cache_key_fn build_context str_dec
  normal_key f args kwargs none none = refl
  normal_key f args kwargs none (some m) = refl
  normal_key f args kwargs (some i) none = refl
  normal_key f args kwargs (some i) (some m) = refl

  default_key :
      (f : String) (args : Value X) (kwargs : Fields X) (i : String) (m : Option (Value X))
      → show (text f) ≡ f
      → default_key_fn show (build_context (entry_of f args kwargs (some i) m))
        ≡ made (f ++ ":" ++ i)
  unfolding default_key_fn build_context str_dec
  default_key f args kwargs i none h = ap (λ s. made (s ++ ":" ++ i)) h
  default_key f args kwargs i (some m) h = ap (λ s. made (s ++ ":" ++ i)) h

  -- The key of a cached task holds its arguments alone: two entries with the same arguments have
  -- one key, whatever their functions are, since the context does not call the function "func_name".
  pub normal_key_ignores_function :
      (entry : Entry X) (other_fn : String) (other_id : Option String)
      → (normal_cache_key_fn show (build_context entry)
          ≡ made ("none" ++ ":" ++ show entry.args ++ ":" ++ show (dict entry.kwargs)))
        × (normal_cache_key_fn show
              (build_context (record entry { fn_name = other_fn; entry_id = other_id }))
            ≡ normal_cache_key_fn show (build_context entry))
  normal_key_ignores_function entry other_fn other_id =
      let e = normal_key entry.fn_name entry.args entry.kwargs entry.entry_id entry.metadata in
      (e, normal_key other_fn entry.args entry.kwargs other_id entry.metadata ∙ sym e)

  -- Where the adapter's own key function is used, two tasks of one function have one key exactly if
  -- they have one id, whatever their arguments are.
  pub default_key_apart :
      (f : String) (args args' : Value X) (kwargs kwargs' : Fields X) (i j : String)
      (m m' : Option (Value X))
      → show (text f) ≡ f
      → (default_key_fn show (build_context (entry_of f args kwargs (some i) m))
          ≡ default_key_fn show (build_context (entry_of f args' kwargs' (some j) m')))
        ↔ (i ≡ j)
  default_key_apart f args args' kwargs kwargs' i j m m' h =
      let a = default_key f args kwargs i m h in
      let b = default_key f args' kwargs' j m' h in
      (
        λ e.
            append_cancel_left ":" i j
              (append_cancel_left f (":" ++ i) (":" ++ j) (made_inj (sym a ∙ e ∙ b))),
        λ e. a ∙ ap (λ k. made (f ++ ":" ++ k)) e ∙ sym b,
      )
    where
      made_inj : {s t : String} → made s ≡ made t → s ≡ t
      made_inj e = cc

-- ===== src/SseClient/Chunks.antt =====
-- src/async_events/sse_client.py: the events of a response do not depend on how its text arrives.
use Prim.Native.Char.{Char, code}
use Prim.Native.String.{◌++◌}
use package.text.Mathlib.TextLemmas.{nil-append, cons-append, append-nil, append_assoc}
use async_task_worker.Base.{
  String, ◌≡◌, refl, sym, ap, ◌∙◌, Option, List, [], ◌∷◌, ◌==◌, Bool-cases, inl, inr,
  ◌++◌ as append,
}
use async_task_worker.SseClient.{add_char, take_lines, process_stream, receive, read_lines, fresh}

-- `"".join(chunks)`
abbrev pub joined : List String → String
joined [] = ""
joined (c ∷ cs) = c ++ joined cs

add_char-append :
    (c : Char) (b : String) (lines : List String) (rest : String)
    → let after_rest = take_lines (rest ++ b) in
      let (lines', rest') = add_char c (lines, rest) in
      add_char c (append lines after_rest.0, after_rest.1)
      ≡ (append lines' (take_lines (rest' ++ b)).0, (take_lines (rest' ++ b)).1)
unfolding add_char take_lines
add_char-append c b [] rest = elim (Bool-cases (code c == b'\n')) [
  | inl h ↦ rw (h, add_char)
  | inr h ↦ rw (h, add_char, cons-append c rest b, h)
]
add_char-append c b (line ∷ more) rest = elim (Bool-cases (code c == b'\n')) [
  | inl h ↦ rw (h, add_char)
  | inr h ↦ rw (h, add_char)
]

-- The lines of a longer text: those of its first part, then those of what was left with the rest.
take_lines-append :
    (a b : String)
    → take_lines (a ++ b) ≡ (
      append (take_lines a).0 (take_lines ((take_lines a).1 ++ b)).0,
      (take_lines ((take_lines a).1 ++ b)).1,
    )
unfolding take_lines
take_lines-append String.[] b = rw (nil-append b) refl
take_lines-append (String.◌∷◌ c a) b =
    rw (cons-append c a b, take_lines-append a b)
      (add_char-append c b (take_lines a).0 (take_lines a).1)

append_assoc_list : (xs ys zs : List String) → append (append xs ys) zs ≡ append xs (append ys zs)
append_assoc_list [] ys zs = refl
append_assoc_list (x ∷ xs) ys zs = ap (λ l. x ∷ l) (append_assoc_list xs ys zs)

-- Two chunks give the lines of the one that they make.
process_stream-merge :
    (a b : String) (chunks : List String) (buffer : String)
    → process_stream (a ∷ b ∷ chunks) buffer ≡ process_stream ((a ++ b) ∷ chunks) buffer
unfolding process_stream
process_stream-merge a b chunks buffer =
    rw (sym (append_assoc buffer a b), take_lines-append (buffer ++ a) b)
      (sym (append_assoc_list (take_lines (buffer ++ a)).0 _ _))

process_stream-joined :
    (chunk : String) (chunks : List String) (buffer : String)
    → process_stream (chunk ∷ chunks) buffer ≡ process_stream ((chunk ++ joined chunks) ∷ []) buffer
process_stream-joined chunk [] buffer = rw (append-nil chunk)
process_stream-joined chunk (c ∷ cs) buffer =
    process_stream-merge chunk c cs buffer
    ∙ process_stream-joined (chunk ++ c) cs buffer
    ∙ rw (append_assoc chunk c (joined cs)) refl

-- However the text of a response is cut into chunks, if there is one at all, the client reads the
-- events that it reads where the text arrives in one chunk.
pub receive-joined :
    {J : Type 0} (loads : String → Option J) (chunk : String) (chunks : List String)
    → receive loads (chunk ∷ chunks) ≡ receive loads (joined (chunk ∷ chunks) ∷ [])
unfolding receive
receive-joined loads chunk chunks =
    ap (λ lines. read_lines loads lines fresh) (process_stream-joined chunk chunks "")

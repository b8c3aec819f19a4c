-- ===== src/SseClient.antt =====
-- src/async_events/sse_client.py: the lines and the events that `SSEClient` reads from a response.
-- The chunks of the response's text are given as a list, and the JSON parser is a parameter.
mod Chunks
pub mod Client
mod Kept
mod Received
mod Tests
use Prim.Native.Char.{Char, code}
use Prim.Native.String.{◌++◌}
use async_task_worker.Base.{
  ℕ, String, Bool, true, false, ◌&&◌, ◌||◌, Option, none, some, List, [], ◌∷◌, if◌then◌else◌, leb,
  ◌==◌, str_dec, ite, ◌++◌ as append,
}

-- A character in front of a text, whose lines and remaining buffer are known.
unfoldable pub add_char : Char → List String × String → List String × String
add_char c (lines, rest) = if code c == b'\n' then ("" ∷ lines, rest) else elim lines [
  | [] ↦ ([], String.◌∷◌ c rest)
  | line ∷ more ↦ ((String.◌∷◌ c line) ∷ more, rest)
]

-- `while "\n" in buffer: line, buffer = buffer.split("\n", 1)`: the lines, and the buffer that is left.
unfoldable pub take_lines : String → List String × String
take_lines String.[] = ([], "")
take_lines (String.◌∷◌ c s) = add_char c (take_lines s)

-- `_process_stream`, with the buffer.
unfoldable pub process_stream : List String → String → List String
unfolding take_lines
process_stream [] buffer = ite (str_dec buffer "") [] (buffer ∷ [])
process_stream (chunk ∷ chunks) buffer =
    let (lines, rest) = take_lines (buffer ++ chunk) in append lines (process_stream chunks rest)

-- What `str.strip` takes for a space.
unfoldable pub is_space : Char → Bool
is_space c =
    (leb 9 (code c) && leb (code c) 13)
    || (leb 28 (code c) && leb (code c) 32)
    || (code c == 133)
    || (code c == 160)
    || (code c == 5760)
    || (leb 8192 (code c) && leb (code c) 8202)
    || (code c == 8232)
    || (code c == 8233)
    || (code c == 8239)
    || (code c == 8287)
    || (code c == 12288)

unfoldable pub strip_left : String → String
unfolding is_space
strip_left String.[] = ""
strip_left (String.◌∷◌ c s) = if is_space c then strip_left s else String.◌∷◌ c s

unfoldable pub strip_right : String → String
unfolding is_space
strip_right String.[] = ""
strip_right (String.◌∷◌ c s) =
    let rest = strip_right s in
    if is_space c then ite (str_dec rest "") "" (String.◌∷◌ c rest) else String.◌∷◌ c rest

abbrev pub strip : String → String
strip s = strip_right (strip_left s)

-- What follows the prefix, if the line starts with it.
unfoldable pub after : String → String → Option String
after String.[] line = some line
after (String.◌∷◌ p ps) String.[] = none
after (String.◌∷◌ p ps) (String.◌∷◌ c line) = if code p == code c then after ps line else none

-- An event as it is collected from its lines.
pub record Collected : Type 0 where
  pub event_type : String
  pub event_data : String
  pub event_id : Option String

abbrev pub fresh : Collected
fresh = record { event_type = "message"; event_data = ""; event_id = none }

pub record Event (J : Type 0) : Type 0 where
  pub event : String
  pub data_obj : J
  pub id : Option String

-- The lines "event:", "data:" and "id:"; other lines are passed over.
unfoldable pub read_field : String → Collected → Collected
unfolding after strip_left strip_right
read_field line c = elim (after "event:" line) [
  | some t ↦ record c { event_type = strip t }
  | none ↦ elim (after "data:" line) [
    | some d ↦ record c {
      event_data = ite (str_dec c.event_data "") (strip d) (c.event_data ++ "\n" ++ strip d);
    }
    | none ↦ elim (after "id:" line) [ some i ↦ record c { event_id = some (strip i) } | none ↦ c ]
  ]
]

module _ {J : Type 0} (loads : String → Option J) where
  -- `_process_event`: an event whose data is no JSON is dropped.
  unfoldable pub process_event : Collected → List (Event J) → List (Event J)
  process_event c events = elim (loads c.event_data) [
    | none ↦ events
    | some d ↦ record { event = c.event_type; data_obj = d; id = c.event_id } ∷ events
  ]

  -- The loop over the lines: the events, the first first.
  unfoldable pub read_lines : List String → Collected → List (Event J)
  unfolding read_field process_event
  read_lines [] c = []
  read_lines (line ∷ lines) c =
      ite (str_dec line "")
        (ite (str_dec c.event_data "") (read_lines lines c)
          (process_event c (read_lines lines fresh)))
        (read_lines lines (read_field line c))

  -- The events of a response.
  unfoldable pub receive : List String → List (Event J)
  unfolding process_stream read_lines
  receive chunks = read_lines (process_stream chunks "") fresh

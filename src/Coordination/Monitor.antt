-- ===== src/Coordination/Monitor.antt =====
-- `StructuredLogMonitor` of src/ddsleuth/coordination.py: it reads what was appended to the logs
-- since the last poll, and takes the events from the lines that are complete.
pub mod Chunks
use ddsleuth.Coordination.{LogEvent}
use ddsleuth.Json.{lookup, Dict, JsonValue, equals_str, get_or, insert, obj, of_fields, str}
use mathlib.Core.List.{reverse}
use ddsleuth.Prelude.{
  guard, Bool, List, Option, Result, String, [], drop, eq_nat, err, false, if◌then◌else◌, leb,
  length, non_empty, none, ok, some, true, ℕ, ◌&&◌, ◌++◌, ◌+◌, ◌>>=◌, ◌>>◌, ◌||◌, ◌∷◌,
}
use ddsleuth.Semantics.Glob.{codes}

pub data CoordinationError : Type 0 where
  line_too_long : String → CoordinationError
  invalid_event : String → CoordinationError
  not_an_object : String → CoordinationError
  other_actor : String → JsonValue → CoordinationError

-- The lines that a newline ends, and what is behind the last one.
abbrev pub Lines : Type 0
Lines = List (List ℕ) × List ℕ

abbrev pub put_byte : ℕ → Lines → Lines
put_byte c ([], rest) = ([], c ∷ rest)
put_byte c (line ∷ lines, rest) = ((c ∷ line) ∷ lines, rest)

abbrev pub put_newline : Lines → Lines
put_newline (lines, rest) = ([] ∷ lines, rest)

-- `lines = buffered.split(b"\n")` and `lines.pop()`
abbrev pub split_lines : List ℕ → Lines
split_lines [] = ([], [])
split_lines (c ∷ cs) = elim (eq_nat c 10) [
  | true ↦ put_newline (split_lines cs)
  | false ↦ put_byte c (split_lines cs)
]

-- The bytes that `bytes.strip` takes away: a tab, the line breaks and a space.
abbrev is_blank_byte : ℕ → Bool
is_blank_byte c = leb 9 c && leb c 13 || eq_nat c 32

abbrev strip_left : List ℕ → List ℕ
strip_left [] = []
strip_left (c ∷ cs) = if is_blank_byte c then strip_left cs else c ∷ cs

abbrev strip : List ℕ → List ℕ
strip line = reverse (strip_left (reverse (strip_left line)))

-- What is behind a prefix.
abbrev without_prefix : List ℕ → List ℕ → Option (List ℕ)
without_prefix [] cs = some cs
without_prefix (p ∷ ps) [] = none
without_prefix (p ∷ ps) (c ∷ cs) = if eq_nat p c then without_prefix ps cs else none

-- `loads` is `json.loads` of bytes, and none where it raises an error. `source` is the name of the
-- log's file.
module _ (loads : List ℕ → Option JsonValue) (max_line_bytes : ℕ) (actor source : String) where
  abbrev checked_actor : Dict JsonValue → Result CoordinationError (Dict JsonValue)
  checked_actor event =
      let declared_actor = get_or event "actor" (str actor) in
      if equals_str declared_actor actor
      then ok (insert "source" (str source) (insert "actor" (str actor) event))
      else err (other_actor actor declared_actor)

  abbrev as_event : Option JsonValue → Result CoordinationError (Dict JsonValue)
  as_event none = err (invalid_event actor)
  as_event (some (obj fields)) = checked_actor (of_fields fields)
  as_event (some _) = err (not_an_object actor)

  abbrev event_in : Option (List ℕ) → Result CoordinationError (List LogEvent)
  event_in none = ok []
  event_in (some text) = do event ← as_event (loads text); ok (event ∷ [])

  pub events_of_line : List ℕ → Result CoordinationError (List LogEvent)
  events_of_line line = event_in (without_prefix (codes "DDSLEUTH_EVENT ") (strip line))

  -- The loop over the complete lines.
  unfoldable pub read_lines :
      List LogEvent → List (List ℕ) → Result CoordinationError (List LogEvent)
  unfolding events_of_line
  read_lines events [] = ok events
  read_lines events (line ∷ lines) = do
    guard (leb (length line) max_line_bytes) (line_too_long actor)
    found ← events_of_line line
    read_lines (events ++ found) lines

  -- The complete lines are read, and what is behind them is kept.
  unfoldable pub read_pieces :
      List LogEvent → Lines → Result CoordinationError (List LogEvent × List ℕ)
  unfolding read_lines
  read_pieces events (lines, rest) = do
    guard (leb (length rest) max_line_bytes) (line_too_long actor)
    further ← read_lines events lines
    ok (further, rest)

  -- A chunk that is not empty is put behind the buffer of its log.
  unfoldable pub read_chunk :
      List LogEvent → List ℕ → List ℕ → Result CoordinationError (List LogEvent × List ℕ)
  unfolding read_pieces
  read_chunk events buffer chunk = read_pieces events (split_lines (buffer ++ chunk))

pub record Monitor : Type 0 where
  pub offsets : Dict ℕ
  pub buffers : Dict (List ℕ)
  pub events : List LogEvent

-- A log of an actor, with the name of its file and the content, unless no file is found.
pub record Log : Type 0 where
  pub actor : String
  pub source : String
  pub content : Option (List ℕ)

abbrev pub or_default {ℓ} : {A : Type ℓ} → A → Option A → A
or_default x none = x
or_default x (some y) = y

module _ (loads : List ℕ → Option JsonValue) (max_line_bytes : ℕ) where
  unfoldable pub read_content :
      Monitor → String → String → List ℕ → Result CoordinationError Monitor
  unfolding read_chunk
  read_content monitor actor source content =
      let offset = or_default 0 (lookup actor monitor.offsets) in
      let chunk = drop offset content in
      let offsets = insert actor (offset + length chunk) monitor.offsets in
      elim (non_empty chunk) [
        | false ↦ ok (record monitor { offsets = offsets })
        | true ↦ do
          (events, rest) ←
              read_chunk loads max_line_bytes actor source monitor.events
                (or_default [] (lookup actor monitor.buffers)) chunk
          ok (record {
            offsets = offsets;
            buffers = insert actor rest monitor.buffers;
            events = events;
          })
      ]

  -- `poll`
  unfoldable pub poll : Monitor → List Log → Result CoordinationError Monitor
  unfolding read_content
  poll monitor [] = ok monitor
  poll monitor (log ∷ logs) = elim log.content [
    | none ↦ poll monitor logs
    | some content ↦ do
      further ← read_content monitor log.actor log.source content
      poll further logs
  ]

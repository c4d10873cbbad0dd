-- ===== src/Coordination/MonitorTests.antt =====
-- A log of two lines that arrives in two chunks, for src/ddsleuth/coordination.py.
use ddsleuth.Coordination.{LogEvent}
use ddsleuth.Coordination.Monitor.{
  Log, Monitor, poll, read_chunk, read_content, read_lines, read_pieces,
}
use ddsleuth.Coordination.Monitor.Chunks.{joined, read_chunks, read_chunks_iff}
use ddsleuth.Json.{JsonValue, end, field, obj, of_fields, str}
use ddsleuth.Prelude.{List, Option, [], ok, refl, some, ℕ, ◌++◌, ◌>>=◌, ◌↔◌, ◌∷◌, ◌≡◌}
use ddsleuth.Semantics.Glob.{codes}

-- Whatever text stands behind the marker is an event without an actor.
abbrev some_event : List ℕ → Option JsonValue
some_event text = some (obj (field "kind" (str "probe.ready") end))

-- A line that is no event, and half of one that is.
abbrev first_half : List ℕ
first_half = b'h' ∷ b'i' ∷ 10 ∷ 32 ∷ codes "DDSLEUTH_"

abbrev second_half : List ℕ
second_half = codes "EVENT {}" ++ 10 ∷ b'x' ∷ []

abbrev event_found : LogEvent
event_found = ("kind", str "probe.ready") ∷ ("actor", str "bob") ∷ ("source", str "bob.log") ∷ []

half_read :
    read_chunks some_event 20 "bob" "bob.log" [] [] first_half (second_half ∷ [])
    ≡ ok (event_found ∷ [], b'x' ∷ [])
unfolding read_chunks read_chunk read_pieces read_lines of_fields
half_read = refl

read_chunks_iff_example :
    (read_chunks some_event 20 "bob" "bob.log" [] [] first_half (second_half ∷ [])
      ≡ ok (event_found ∷ [], b'x' ∷ []))
    ↔ (read_chunk some_event 20 "bob" "bob.log" [] [] (joined first_half (second_half ∷ []))
        ≡ ok (event_found ∷ [], b'x' ∷ []))
read_chunks_iff_example =
    read_chunks_iff some_event 20 "bob" "bob.log" [] [] first_half (second_half ∷ [])
      (event_found ∷ [], b'x' ∷ [])

abbrev log_with : List ℕ → Log
log_with content = record { actor = "bob"; source = "bob.log"; content = some content }

abbrev at_first : Monitor
at_first = record { offsets = []; buffers = []; events = [] }

-- The second poll reads on where the first one stopped.
polled_twice :
    (poll some_event 20 at_first (log_with first_half ∷ []) >>= λ monitor.
    poll some_event 20 monitor (log_with (first_half ++ second_half) ∷ []))
    ≡ ok (record {
      offsets = ("bob", 23) ∷ [];
      buffers = ("bob", b'x' ∷ []) ∷ [];
      events = event_found ∷ [];
    })
unfolding poll read_content read_pieces read_lines of_fields
polled_twice = refl

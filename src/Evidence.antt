-- ===== src/Evidence.antt =====
-- src/ddsleuth/evidence.py and the conversions of `EvidenceEvent` in src/ddsleuth/models.py.
-- A `raise ValueError` is a constructor of `EvidenceError` with the values that its message shows.
pub mod RoundTrip
pub mod Sequencing
mod Tests
use ddsleuth.Prelude.{
  guard, ℕ, suc, String, Bool, true, false, not, Option, none, some, List, [], ◌∷◌, ◌++◌, ℤ, pos,
  negsuc, keep, if◌then◌else◌, Result, ok, err, ◌>>=◌, ◌>>◌,
}
use ddsleuth.Json.{
  JsonValue, null, bool, int, str, arr, obj, Fields, end, Dict, get, get_or, is_str, of_fields,
  to_fields, of_items, to_items, equals_int,
}
use ddsleuth.Model.{EvidenceEvent}

pub record EvidenceBundle : Type 0 where
  pub schema_version : ℤ
  pub run_id : String
  pub scenario_id : String
  pub scenario_digest : String
  pub implementation : String
  pub events : List EvidenceEvent
  pub metadata : Dict JsonValue

pub data EvidenceError : Type 0 where
  fields_must_be_strings : List String → EvidenceError
  attributes_must_be_object : EvidenceError
  sequence_must_be_integer : EvidenceError
  monotonic_ns_must_be_non_negative : EvidenceError
  source_must_be_string : EvidenceError
  -- `raw.get` on a value that is no mapping: Python's AttributeError
  no_attribute_get : EvidenceError
  schema_version_must_be_1 : EvidenceError
  events_must_be_array : EvidenceError
  metadata_must_be_object : EvidenceError

-- `[name for name in names if not isinstance(raw.get(name), str)]`
abbrev pub not_strings : List String → Dict JsonValue → List String
not_strings names raw = keep (λ name. not (is_str (get raw name))) names

-- `raw[name]`, read only after the check that it is a text
abbrev pub text : JsonValue → String
text (str s) = s
text _ = ""

abbrev pub mapping : EvidenceError → JsonValue → Result EvidenceError (Dict JsonValue)
mapping error (obj fields) = ok (of_fields fields)
mapping error _ = err error

abbrev optional_sequence : JsonValue → Result EvidenceError (Option ℤ)
optional_sequence null = ok none
optional_sequence (bool b) = ok (some (pos (if b then 1 else 0)))
optional_sequence (int n) = ok (some n)
optional_sequence _ = err sequence_must_be_integer

abbrev optional_time : JsonValue → Result EvidenceError (Option ℤ)
optional_time null = ok none
optional_time (bool b) = ok (some (pos (if b then 1 else 0)))
optional_time (int (pos n)) = ok (some (pos n))
optional_time _ = err monotonic_ns_must_be_non_negative

abbrev optional_source : JsonValue → Result EvidenceError (Option String)
optional_source null = ok none
optional_source (str s) = ok (some s)
optional_source _ = err source_must_be_string

abbrev all_strings : List String → Result EvidenceError (Unit {0})
all_strings [] = ok tt
all_strings (name ∷ names) = err (fields_must_be_strings (name ∷ names))

unfoldable pub event_from_dict : Dict JsonValue → Result EvidenceError EvidenceEvent
event_from_dict raw = do
  all_strings (not_strings ("kind" ∷ "actor" ∷ "implementation" ∷ "outcome" ∷ []) raw)
  attributes ← mapping attributes_must_be_object (get_or raw "attributes" (obj end))
  sequence ← optional_sequence (get raw "sequence")
  monotonic_ns ← optional_time (get raw "monotonic_ns")
  source ← optional_source (get raw "source")
  ok (record {
    kind = text (get raw "kind");
    actor = text (get raw "actor");
    implementation = text (get raw "implementation");
    outcome = text (get raw "outcome");
    attributes = attributes;
    source = source;
    sequence = sequence;
    monotonic_ns = monotonic_ns;
  })

-- The entry is there only if the value is not None.
abbrev source_entry : Option String → Dict JsonValue
source_entry none = []
source_entry (some s) = ("source", str s) ∷ []

abbrev int_entry : String → Option ℤ → Dict JsonValue
int_entry name none = []
int_entry name (some n) = (name, int n) ∷ []

unfoldable pub event_to_dict : EvidenceEvent → Dict JsonValue
event_to_dict event =
    ("kind", str event.kind)
    ∷ ("actor", str event.actor)
    ∷ ("implementation", str event.implementation)
    ∷ ("outcome", str event.outcome)
    ∷ ("attributes", obj (to_fields event.attributes))
    ∷ (source_entry event.source
        ++ (int_entry "sequence" event.sequence ++ int_entry "monotonic_ns" event.monotonic_ns))

event_of_value : JsonValue → Result EvidenceError EvidenceEvent
unfolding event_from_dict
event_of_value (obj fields) = event_from_dict (of_fields fields)
event_of_value _ = err no_attribute_get

-- `tuple(EvidenceEvent.from_dict(event) for event in events_raw)`
pub events_of_values : List JsonValue → Result EvidenceError (List EvidenceEvent)
unfolding event_of_value
events_of_values [] = ok []
events_of_values (v ∷ vs) = do
  event ← event_of_value v
  events ← events_of_values vs
  ok (event ∷ events)

abbrev items_of : JsonValue → Result EvidenceError (List JsonValue)
items_of (arr items) = ok (of_items items)
items_of _ = err events_must_be_array

unfoldable pub bundle_from_dict : Dict JsonValue → Result EvidenceError EvidenceBundle
unfolding events_of_values
bundle_from_dict raw = do
  guard (equals_int (get raw "schema_version") (pos 1)) schema_version_must_be_1
  all_strings
      (not_strings ("run_id" ∷ "scenario_id" ∷ "scenario_digest" ∷ "implementation" ∷ []) raw)
  values ← items_of (get raw "events")
  metadata ← mapping metadata_must_be_object (get_or raw "metadata" (obj end))
  events ← events_of_values values
  ok (record {
    schema_version = pos 1;
    run_id = text (get raw "run_id");
    scenario_id = text (get raw "scenario_id");
    scenario_digest = text (get raw "scenario_digest");
    implementation = text (get raw "implementation");
    events = events;
    metadata = metadata;
  })

pub event_values : List EvidenceEvent → List JsonValue
unfolding event_to_dict
event_values [] = []
event_values (event ∷ events) = obj (to_fields (event_to_dict event)) ∷ event_values events

unfoldable pub bundle_to_dict : EvidenceBundle → Dict JsonValue
unfolding event_values
bundle_to_dict bundle =
    ("schema_version", int bundle.schema_version)
    ∷ ("run_id", str bundle.run_id)
    ∷ ("scenario_id", str bundle.scenario_id)
    ∷ ("scenario_digest", str bundle.scenario_digest)
    ∷ ("implementation", str bundle.implementation)
    ∷ ("metadata", obj (to_fields bundle.metadata))
    ∷ ("events", arr (to_items (event_values bundle.events)))
    ∷ []

-- The events of `create`, each with its position in the run for its sequence number.
pub number_from : ℕ → List EvidenceEvent → List EvidenceEvent
number_from index [] = []
number_from index (event ∷ events) =
    record event { sequence = some (pos index) } ∷ number_from (suc index) events

unfoldable pub create :
    (run_id scenario_id scenario_digest implementation : String)
    → List EvidenceEvent
    → Option (Dict JsonValue)
    → EvidenceBundle
unfolding number_from
create run_id scenario_id scenario_digest implementation events metadata = record {
  schema_version = pos 1;
  run_id = run_id;
  scenario_id = scenario_id;
  scenario_digest = scenario_digest;
  implementation = implementation;
  events = number_from 0 events;
  metadata = elim metadata [ none ↦ [] | some entries ↦ entries ];
}

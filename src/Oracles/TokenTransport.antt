-- ===== src/Oracles/TokenTransport.antt =====
-- src/ddsleuth/oracles/token_transport.py: a received key token came by a route on which it was
-- generated.
pub mod Reading
pub mod Observations
pub mod Routes
pub mod Transport
pub mod Verdict
use ddsleuth.Evidence.{EvidenceBundle}
use ddsleuth.Fingerprints.{is_fingerprint}
use ddsleuth.Json.{JsonValue, arr, bool, get, get_or, int, obj, str, to_fields, to_items}
use ddsleuth.Model.{AssertionSpec, EvidenceEvent, Scenario, is_kind}
use ddsleuth.Model.EventKind.{key_material_observed}
use ddsleuth.Oracles.Base.{
  OracleResult, event_sequence, excludes, neither_null_nor_str, not_applicable, pass, undecided,
  violation,
}
use ddsleuth.Prelude.{
  Bool, List, Option, String, [], any, collect, if◌then◌else◌, keep, length, lt_int, map, non_empty,
  none, not, pos, some, sorted, sorted_ints, true, ℕ, ℤ, ◌&&◌, ◌++◌, ◌==◌, ◌||◌, ◌∷◌,
}

abbrev pub name : String
name = "crypto_token_transport_consistency"

-- `route`: fingerprint, token class, destination participant and endpoint, source endpoint.
pub record Route : Type 0 where
  pub fingerprint : String
  pub token_class : String
  pub destination_participant : String
  pub destination_endpoint : String
  pub source_endpoint : String

pub record Observation : Type 0 where
  pub sequence : ℤ
  pub actor : String
  pub phase : String
  pub local_participant : String
  pub route : Route

-- A function of seven attributes that asks for texts in all of them.
abbrev pub seven_texts :
    JsonValue
    → JsonValue
    → JsonValue
    → JsonValue
    → JsonValue
    → JsonValue
    → JsonValue
    → Option (String × String × Route)
seven_texts (str phase) (str fingerprint) (str token_class) (str local) (str participant)
      (str endpoint) (str source) =
    some (
      phase,
      local,
      record {
        fingerprint = fingerprint;
        token_class = token_class;
        destination_participant = participant;
        destination_endpoint = endpoint;
        source_endpoint = source;
      },
    )
seven_texts _ _ _ _ _ _ _ = none

pub read_attributes : EvidenceEvent → Option (String × String × Route)
read_attributes event =
    seven_texts (get event.attributes "observation_phase") (get event.attributes "key_fingerprint")
      (get event.attributes "token_class") (get event.attributes "local_participant_guid")
      (get event.attributes "destination_participant_guid")
      (get event.attributes "destination_endpoint_guid")
      (get event.attributes "source_endpoint_guid")

pub observation_of : ℕ → EvidenceEvent → Option Observation
unfolding read_attributes
observation_of index event =
    if not (is_kind event key_material_observed) || not (event.outcome == "observed")
    then none
    else elim (read_attributes event) [
      | none ↦ none
      | some (phase, local, route) ↦
          if not (phase == "generated" || phase == "received")
            || not (is_fingerprint route.fingerprint)
          then none
          else some (record {
            sequence = event_sequence index event.sequence;
            actor = event.actor;
            phase = phase;
            local_participant = local;
            route = route;
          })
    ]

-- The observations that the assertion selects, apart by phase. One that stays within a
-- participant does not traverse the transport.
abbrev pub is_generated : Observation → Bool
is_generated o =
    o.phase == "generated" && not (o.local_participant == o.route.destination_participant)

abbrev pub selected : JsonValue → (Observation → Bool) → ℕ → EvidenceEvent → Option Observation
selected token_class wanted index event = elim (observation_of index event) [
  | none ↦ none
  | some o ↦ if excludes token_class o.route.token_class || not (wanted o) then none else some o
]

abbrev pub generated : JsonValue → List EvidenceEvent → List Observation
generated token_class events = collect (selected token_class is_generated) 0 events

abbrev pub received : JsonValue → List EvidenceEvent → List Observation
received token_class events =
    collect (selected token_class (λ o. not (o.phase == "generated"))) 0 events

pub same_route : Route → Route → Bool
same_route a b =
    a.fingerprint == b.fingerprint
    && (a.token_class == b.token_class
        && (a.destination_participant == b.destination_participant
            && (a.destination_endpoint == b.destination_endpoint
                && a.source_endpoint == b.source_endpoint)))

-- `item.route in {other.route for other in others}`
pub on_route_of : List Observation → Observation → Bool
unfolding same_route
on_route_of others item = any (λ (other : Observation). same_route item.route other.route) others

-- `generated_by_fingerprint.get(item.fingerprint, [])`
pub origins : List Observation → Observation → List Observation
origins others item =
    keep (λ (other : Observation). other.route.fingerprint == item.route.fingerprint) others

abbrev pub is_misrouted : List Observation → Observation → Bool
is_misrouted others item = not (on_route_of others item) && non_empty (origins others item)

abbrev pub is_orphaned : List Observation → Observation → Bool
is_orphaned others item = not (on_route_of others item) && not (non_empty (origins others item))

abbrev item_sequences : List Observation → List ℤ
item_sequences items = map (λ (o : Observation). o.sequence) items

abbrev with_origins : List Observation → List Observation → List ℤ
with_origins others [] = []
with_origins others (item ∷ items) =
    item.sequence ∷ (item_sequences (origins others item) ++ with_origins others items)

abbrev shown_route : Observation → JsonValue
shown_route o = obj (
    to_fields (
      ("actor", str o.actor)
      ∷ ("destination_participant", str o.route.destination_participant)
      ∷ ("destination_endpoint", str o.route.destination_endpoint)
      ∷ ("source_endpoint", str o.route.source_endpoint)
      ∷ []))

pub misrouting : AssertionSpec → List Observation → Observation → List Observation → OracleResult
misrouting assertion gens item items = record {
  assertion_id = assertion.assertion_id;
  oracle = name;
  status = violation;
  summary = "Received key material was rebound to a route on which it was not generated";
  evidence_events = sorted_ints (with_origins gens (item ∷ items));
  details =
      ("fingerprint", str item.route.fingerprint)
      ∷ ("received_actor", str item.actor)
      ∷ ("received_destination_participant", str item.route.destination_participant)
      ∷ ("received_destination_endpoint", str item.route.destination_endpoint)
      ∷ ("received_source_endpoint", str item.route.source_endpoint)
      ∷ ("generated_routes", arr (to_items (map shown_route (origins gens item))))
      ∷ [];
}

-- What is reported when nothing is misrouted.
pub complete : AssertionSpec → Bool → List Observation → List Observation → OracleResult
complete assertion require_all gens recs =
    let orphaned = keep (is_orphaned gens) recs in
    let unmatched = keep (λ item. not (on_route_of recs item)) gens in
    if non_empty orphaned || require_all && non_empty unmatched
    then record {
      assertion_id = assertion.assertion_id;
      oracle = name;
      status = not_applicable;
      summary = "Token transport observation was incomplete in one or both directions";
      evidence_events =
          sorted_ints (item_sequences (orphaned ++ (if require_all then unmatched else [])));
      details =
          ("received_without_generation", int (pos (length orphaned)))
          ∷ ("generated_without_receive", int (pos (length unmatched)))
          ∷ [];
    }
    else record {
      assertion_id = assertion.assertion_id;
      oracle = name;
      status = pass;
      summary = "Every received key fingerprint matched its exact generated token route";
      evidence_events = sorted lt_int (item_sequences (gens ++ recs));
      details =
          ("generated_observations", int (pos (length gens)))
          ∷ ("received_observations", int (pos (length recs)))
          ∷ [];
    }

pub report : AssertionSpec → Bool → List Observation → List Observation → OracleResult
unfolding misrouting complete on_route_of origins
report assertion require_all gens recs =
    if not (non_empty gens) && not (non_empty recs)
    then undecided assertion name "No routed run-local key observations were available" []
    else elim (keep (is_misrouted gens) recs) [
      | [] ↦ complete assertion require_all gens recs
      | item ∷ items ↦ misrouting assertion gens item items
    ]

-- `isinstance(value, bool)`, with the value
abbrev pub as_bool : JsonValue → Option Bool
as_bool (bool b) = some b
as_bool _ = none

unfoldable pub crypto_token_transport_consistency :
    Scenario → AssertionSpec → EvidenceBundle → OracleResult
unfolding report observation_of
crypto_token_transport_consistency scenario assertion evidence =
    let token_class = get assertion.parameters "token_class" in
    if neither_null_nor_str token_class
    then undecided assertion name "token_class must be a string" []
    else elim (as_bool (get_or assertion.parameters "require_all_generated" (bool true))) [
      | none ↦ undecided assertion name "require_all_generated must be a boolean" []
      | some require_all ↦
          report assertion require_all (generated token_class evidence.events)
            (received token_class evidence.events)
    ]

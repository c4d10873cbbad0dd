-- ===== src/Oracles/EndpointLifecycle.antt =====
-- src/ddsleuth/oracles/endpoint_lifecycle.py: recreating an endpoint gives it fresh keys.
pub mod Boundaries
pub mod Keys
pub mod Sides
pub mod Verdict
use ddsleuth.Evidence.{EvidenceBundle}
use ddsleuth.Fingerprints.{is_fingerprint}
use ddsleuth.Json.{Dict, JsonValue, equals_str, get, get_or, int, lookup, str}
use ddsleuth.Model.{AssertionSpec, EvidenceEvent, Scenario, is_kind}
use ddsleuth.Model.EventKind.{endpoint_destroyed, key_material_observed}
use ddsleuth.Oracles.Base.{
  OracleResult, event_sequence, not_applicable, pass, str_items, undecided, violation,
}
use ddsleuth.Prelude.{
  Bool, List, Option, String, [], any, collect, distinct, if◌then◌else◌, keep, length, ltb, map,
  non_empty, none, not, pos, some, sorted_ints, sorted_texts, ℕ, ℤ, ◌++◌, ◌==◌, ◌||◌, ◌∷◌,
}
use ddsleuth.Semantics.{named_value}

abbrev pub name : String
name = "endpoint_key_lifecycle"

pub record Filters : Type 0 where
  pub actor : String
  pub token_class : String
  pub endpoint_class : String
  pub observation_phase : String

-- An observed key: its fingerprint, where its event stands and the sequence number.
pub record Observation : Type 0 where
  pub fingerprint : String
  pub index : ℕ
  pub sequence : ℤ

abbrev pub boundary : String → ℕ → EvidenceEvent → Option (ℕ × EvidenceEvent)
boundary actor index event =
    if not (event.actor == actor) || not (is_kind event endpoint_destroyed)
    then none
    else some (index, event)

abbrev pub skips : Filters → EvidenceEvent → Bool
skips filters event =
    not (event.actor == filters.actor)
    || (not (is_kind event key_material_observed)
        || (not (equals_str (get event.attributes "token_class") filters.token_class)
            || (not (equals_str (get event.attributes "endpoint_class") filters.endpoint_class)
                || not (
                    equals_str (get event.attributes "observation_phase")
                      filters.observation_phase))))

abbrev pub fingerprint_of : JsonValue → Option String
fingerprint_of (str fingerprint) = if is_fingerprint fingerprint then some fingerprint else none
fingerprint_of _ = none

pub key_of : Filters → EvidenceEvent → Option String
key_of filters event =
    if skips filters event then none else fingerprint_of (get event.attributes "key_fingerprint")

abbrev pub observation : Filters → ℕ → EvidenceEvent → Option Observation
observation filters index event = elim (key_of filters event) [
  | none ↦ none
  | some fingerprint ↦ some (record {
    fingerprint = fingerprint;
    index = index;
    sequence = event_sequence index event.sequence;
  })
]

abbrev pub fingerprints : List Observation → List String
fingerprints observations = map (λ (o : Observation). o.fingerprint) observations

-- The fingerprints seen before, and after, the position. The source keeps the positions by
-- fingerprint; here an observation carries its own.
abbrev pub pre : ℕ → List Observation → List String
pre at observations = fingerprints (keep (λ (o : Observation). ltb o.index at) observations)

abbrev pub post : ℕ → List Observation → List String
post at observations = fingerprints (keep (λ (o : Observation). ltb at o.index) observations)

-- `pre & post`
abbrev pub common : List String → List String → List String
common xs ys = keep (λ x. any (λ y. y == x) ys) xs

-- The sequence numbers of the observations of some of the fingerprints.
abbrev related : List String → List Observation → List ℤ
related wanted observations =
    map (λ (o : Observation). o.sequence)
      (keep (λ (o : Observation). any (λ y. y == o.fingerprint) wanted) observations)

abbrev counts : List String → List String → Dict JsonValue
counts before after =
    ("pre_fingerprint_count", int (pos (length (distinct before))))
    ∷ ("post_fingerprint_count", int (pos (length (distinct after))))
    ∷ []

pub compare_sides :
    AssertionSpec
    → Filters
    → ℤ
    → List Observation
    → List String
    → List String
    → List String
    → OracleResult
compare_sides assertion filters sequence observations before after [] = record {
  assertion_id = assertion.assertion_id;
  oracle = name;
  status = pass;
  summary = "Endpoint recreation produced disjoint user-endpoint key material";
  evidence_events = sorted_ints (sequence ∷ related (before ++ after) observations);
  details = ("actor", str filters.actor) ∷ counts before after;
}
compare_sides assertion filters sequence observations before after (x ∷ xs) = record {
  assertion_id = assertion.assertion_id;
  oracle = name;
  status = violation;
  summary = "User-endpoint key material survived endpoint destruction and recreation";
  evidence_events = sorted_ints (sequence ∷ related (x ∷ xs) observations);
  details =
      ("actor", str filters.actor)
      ∷ ("reused_fingerprints", str_items (sorted_texts (x ∷ xs)))
      ∷ counts before after;
}

pub report : AssertionSpec → Filters → ℕ → EvidenceEvent → List Observation → OracleResult
unfolding compare_sides
report assertion filters at boundary_event observations =
    let sequence = event_sequence at boundary_event.sequence in
    let before = pre at observations in
    let after = post at observations in
    if not (non_empty before) || not (non_empty after)
    then record {
      assertion_id = assertion.assertion_id;
      oracle = name;
      status = not_applicable;
      summary = "Key observations were missing on one side of endpoint recreation";
      evidence_events =
          sorted_ints (map (λ (o : Observation). o.sequence) observations ++ sequence ∷ []);
      details = counts before after;
    }
    else compare_sides assertion filters sequence observations before after (common before after)

-- Exactly one destruction of an endpoint marks the two sides.
pub judge : AssertionSpec → Filters → List EvidenceEvent → List (ℕ × EvidenceEvent) → OracleResult
unfolding report key_of
judge assertion filters events ((at, boundary_event) ∷ []) =
    report assertion filters at boundary_event (collect (observation filters) 0 events)
judge assertion filters events boundaries =
    undecided assertion name "Exactly one endpoint destruction boundary is required"
      (("boundary_count", int (pos (length boundaries))) ∷ [])

-- A text that is not empty, for each of the three filters.
abbrev pub filters_of : String → Option String → Option String → Option String → Option Filters
filters_of actor (some token_class) (some endpoint_class) (some observation_phase) = some (record {
  actor = actor;
  token_class = token_class;
  endpoint_class = endpoint_class;
  observation_phase = observation_phase;
})
filters_of actor _ _ _ = none

abbrev pub read_filters : AssertionSpec → String → Option Filters
read_filters assertion actor =
    filters_of actor (named_value (get_or assertion.parameters "token_class" (str "datawriter")))
      (named_value (get_or assertion.parameters "endpoint_class" (str "user")))
      (named_value (get_or assertion.parameters "observation_phase" (str "generated")))

-- The actor of the assertion, if it is a participant of the scenario.
abbrev pub declared : Scenario → JsonValue → Option String
declared scenario (str actor) = elim (lookup actor scenario.participants) [
  | none ↦ none
  | some _ ↦ some actor
]
declared scenario _ = none

unfoldable pub endpoint_key_lifecycle : Scenario → AssertionSpec → EvidenceBundle → OracleResult
unfolding judge
endpoint_key_lifecycle scenario assertion evidence =
    elim (declared scenario (get assertion.parameters "actor")) [
      | none ↦ undecided assertion name "actor must identify a scenario participant" []
      | some actor ↦ elim (read_filters assertion actor) [
        | none ↦
            undecided assertion name "lifecycle observation filters must be non-empty strings" []
        | some filters ↦
            judge assertion filters evidence.events (collect (boundary actor) 0 evidence.events)
      ]
    ]

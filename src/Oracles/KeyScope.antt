-- ===== src/Oracles/KeyScope.antt =====
-- src/ddsleuth/oracles/key_scope.py: no key fingerprint is seen in two scopes.
pub mod Groups
pub mod Keys
pub mod Verdict
use ddsleuth.Evidence.{EvidenceBundle}
use ddsleuth.Fingerprints.{is_fingerprint}
use ddsleuth.Json.{Dict, JsonValue, as_str, get, get_or, null, str}
use ddsleuth.Model.{AssertionSpec, EvidenceEvent, Scenario, is_kind}
use ddsleuth.Model.EventKind.{key_material_observed}
use ddsleuth.Oracles.Base.{
  OracleResult, event_sequence, excludes_value, neither_null_nor_str, pass, str_items, undecided,
  violation,
}
use ddsleuth.Prelude.{
  Bool, List, Option, String, [], collect, distinct, if◌then◌else◌, keep, length, ltb, map, none,
  not, some, sorted_texts, ℕ, ℤ, ◌++◌, ◌==◌, ◌||◌, ◌∷◌,
}

abbrev pub name : String
name = "key_scope_separation"

pub record Filters : Type 0 where
  pub key_class : JsonValue
  pub scope_attribute : String
  pub observation_phase : JsonValue
  pub endpoint_class : JsonValue
  pub material_semantics : JsonValue

-- One observation of a fingerprint: its sequence number, its scope and its actor.
pub record Observation : Type 0 where
  pub sequence : ℤ
  pub scope : String
  pub actor : String

-- The guards of the loop up to the texts that are read.
abbrev pub skips : Filters → EvidenceEvent → Bool
skips filters event =
    not (is_kind event key_material_observed)
    || (not (event.outcome == "observed")
        || (excludes_value filters.key_class (get event.attributes "key_class")
            || (excludes_value filters.observation_phase (get event.attributes "observation_phase")
                || (excludes_value filters.endpoint_class (get event.attributes "endpoint_class")
                    || excludes_value filters.material_semantics
                        (get event.attributes "material_semantics")))))

abbrev pub keyed : JsonValue → JsonValue → Option (String × String)
keyed (str fingerprint) (str scope) =
    if is_fingerprint fingerprint then some (fingerprint, scope) else none
keyed _ _ = none

-- The fingerprint and the scope of an event that passes every guard.
pub scoped_key : Filters → EvidenceEvent → Option (String × String)
scoped_key filters event =
    if skips filters event
    then none
    else keyed (get event.attributes "key_fingerprint")
        (get event.attributes filters.scope_attribute)

abbrev pub observation : Filters → ℕ → EvidenceEvent → Option (String × Observation)
observation filters index event = elim (scoped_key filters event) [
  | none ↦ none
  | some (fingerprint, scope) ↦ some (
    fingerprint,
    record { sequence = event_sequence index event.sequence; scope = scope; actor = event.actor },
  )
]

-- `fingerprints[fingerprint].append(...)` on a `defaultdict(list)`
pub append_to : String → Observation → Dict (List Observation) → Dict (List Observation)
append_to k x [] = (k, x ∷ []) ∷ []
append_to k x ((j, xs) ∷ groups) =
    if j == k then (j, xs ++ x ∷ []) ∷ groups else (j, xs) ∷ append_to k x groups

pub group : Dict (List Observation) → List (String × Observation) → Dict (List Observation)
unfolding append_to
group groups [] = groups
group groups ((k, x) ∷ rest) = group (append_to k x groups) rest

abbrev pub scopes : List Observation → List String
scopes observations = map (λ (o : Observation). o.scope) observations

-- `len({scope for ...}) > 1`
abbrev pub collides : String × List Observation → Bool
collides (fingerprint, observations) = ltb 1 (length (distinct (scopes observations)))

-- `value if isinstance(value, str) else "any"`
abbrev or_any : JsonValue → JsonValue
or_any (str s) = str s
or_any _ = str "any"

abbrev group_sequences : Dict (List Observation) → List ℤ
group_sequences [] = []
group_sequences ((_, observations) ∷ groups) =
    map (λ (o : Observation). o.sequence) observations ++ group_sequences groups

pub report :
    AssertionSpec → Filters → List (String × Observation) → Dict (List Observation) → OracleResult
report assertion filters considered ((fingerprint, observations) ∷ collisions) = record {
  assertion_id = assertion.assertion_id;
  oracle = name;
  status = violation;
  summary = "The same key authority was observed in scopes required to be distinct";
  evidence_events = group_sequences ((fingerprint, observations) ∷ collisions);
  details =
      ("key_class", or_any filters.key_class)
      ∷ ("observation_phase", or_any filters.observation_phase)
      ∷ ("endpoint_class", or_any filters.endpoint_class)
      ∷ ("material_semantics", or_any filters.material_semantics)
      ∷ ("fingerprint", str fingerprint)
      ∷ ("scopes", str_items (sorted_texts (scopes observations)))
      ∷ ("actors", str_items (sorted_texts (map (λ (o : Observation). o.actor) observations)))
      ∷ [];
}
report assertion filters (first ∷ considered) [] = record {
  assertion_id = assertion.assertion_id;
  oracle = name;
  status = pass;
  summary = "No key fingerprint crossed a required scope boundary";
  evidence_events = map (λ (o : String × Observation). o.1.sequence) (first ∷ considered);
  details = [];
}
report assertion filters [] [] =
    undecided assertion name "No scoped run-local key fingerprints were available" []

pub judge : AssertionSpec → Filters → List EvidenceEvent → OracleResult
unfolding report group scoped_key
judge assertion filters events =
    let considered = collect (observation filters) 0 events in
    report assertion filters considered (keep collides (group [] considered))

-- A sender's common key is shared by every authorized receiver: separation by recipient asks
-- only for the receiver-specific part.
abbrev default_semantics : String → JsonValue → JsonValue
default_semantics scope_attribute null =
    if scope_attribute == "destination_participant_guid" then str "recipient_specific" else null
default_semantics scope_attribute v = v

pub filters_of : AssertionSpec → String → Filters
filters_of assertion scope_attribute = record {
  key_class = get assertion.parameters "key_class";
  scope_attribute = scope_attribute;
  observation_phase = get assertion.parameters "observation_phase";
  endpoint_class = get assertion.parameters "endpoint_class";
  material_semantics =
      default_semantics scope_attribute (get assertion.parameters "material_semantics");
}

pub with_scope : AssertionSpec → Option String → List EvidenceEvent → OracleResult
unfolding judge filters_of
with_scope assertion none events = undecided assertion name "scope_attribute must be a string" []
with_scope assertion (some scope_attribute) events =
    if neither_null_nor_str (get assertion.parameters "observation_phase")
    then undecided assertion name "observation_phase must be a string" []
    else if neither_null_nor_str (get assertion.parameters "endpoint_class")
    then undecided assertion name "endpoint_class must be a string" []
    else if neither_null_nor_str (get assertion.parameters "material_semantics")
    then undecided assertion name "material_semantics must be a string" []
    else judge assertion (filters_of assertion scope_attribute) events

unfoldable pub key_scope_separation : Scenario → AssertionSpec → EvidenceBundle → OracleResult
unfolding with_scope
key_scope_separation scenario assertion evidence =
    with_scope assertion (as_str (get_or assertion.parameters "scope_attribute" (str "scope_id")))
      evidence.events

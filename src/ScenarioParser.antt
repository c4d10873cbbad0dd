-- ===== src/ScenarioParser.antt =====
-- src/ddsleuth/scenario.py: the document of an experiment, checked and read.
pub mod Values
pub mod Participants
pub mod Roles
pub mod WellFormed
pub mod Checks
pub mod Accepted
mod Tests
-- The topics, each with its properties.
use ddsleuth.Json.{
  end, Dict, JsonValue, arr, as_int, equals_int, get, get_or, obj, of_fields, of_items,
}
use ddsleuth.Model.{AssertionSpec, Scenario}
use ddsleuth.Model.EventKind.{value}
use ddsleuth.Prelude.{
  guard, List, Option, Result, String, [], err, if◌then◌else◌, ltb, not, ok, pos, some, suc, ℕ, ℤ,
  ◌>>=◌, ◌>>◌, ◌∷◌,
}
use ddsleuth.ScenarioParser.Participants.{contains, parse_grant_order, parse_participants}
use ddsleuth.ScenarioParser.Roles.{parse_execution}
use ddsleuth.ScenarioParser.Values.{
  ScenarioError, domain_id_out_of_range, duplicate_assertion, entry_must_be_object, in_assertion,
  in_implementation, in_scenario, mapping, must_be_non_empty, must_be_object, must_be_string,
  optional_string, require_string, schema_version_must_be_1, topic_must_be_object,
}

pub parse_topics : Dict JsonValue → Result ScenarioError (Dict (Dict JsonValue))
parse_topics [] = ok []
parse_topics ((name, obj fields) ∷ entries) = do
  rest ← parse_topics entries
  ok ((name, of_fields fields) ∷ rest)
parse_topics (_ ∷ entries) = err topic_must_be_object

pub parse_assertion : List String → ℕ → JsonValue → Result ScenarioError AssertionSpec
parse_assertion assertion_ids index assertion_raw = do
  raw ← mapping (must_be_object (in_assertion index)) assertion_raw
  assertion_id ← require_string raw "id" (in_assertion index)
  guard (not (contains assertion_ids assertion_id)) (duplicate_assertion assertion_id)
  oracle ← require_string raw "oracle" (in_assertion index)
  parameters ←
      mapping (entry_must_be_object (in_assertion index) "parameters")
        (get_or raw "parameters" (obj end))
  ok (record { assertion_id = assertion_id; oracle = oracle; parameters = parameters })

-- The loop over the assertions, with the ids that it has seen.
pub assertions_from : List String → ℕ → List JsonValue → Result ScenarioError (List AssertionSpec)
unfolding parse_assertion
assertions_from assertion_ids index [] = ok []
assertions_from assertion_ids index (raw ∷ raws) = do
  first ← parse_assertion assertion_ids index raw
  rest ← assertions_from (first.assertion_id ∷ assertion_ids) (suc index) raws
  ok (first ∷ rest)

abbrev some_assertions : List JsonValue → Result ScenarioError (List AssertionSpec)
some_assertions [] = err (must_be_non_empty in_scenario "assertions")
some_assertions (raw ∷ raws) = assertions_from [] 0 (raw ∷ raws)

pub parse_assertions : JsonValue → Result ScenarioError (List AssertionSpec)
unfolding assertions_from
parse_assertions (arr items) = some_assertions (of_items items)
parse_assertions _ = err (must_be_non_empty in_scenario "assertions")

-- `isinstance(domain_id, int) and 0 <= domain_id <= 232`
abbrev in_domain_range : Option ℤ → Result ScenarioError ℤ
in_domain_range (some (pos n)) = if ltb 232 n then err domain_id_out_of_range else ok (pos n)
in_domain_range _ = err domain_id_out_of_range

pub parse_domain_id : JsonValue → Result ScenarioError ℤ
parse_domain_id value = in_domain_range (as_int value)

-- `canonical_digest` is the SHA-256 of the document's canonical JSON text (`_canonical_digest`).
unfoldable pub parse_scenario :
    (Dict JsonValue → String) → Dict JsonValue → Result ScenarioError Scenario
unfolding parse_domain_id parse_topics parse_assertions
parse_scenario canonical_digest raw = do
  guard (equals_int (get raw "schema_version") (pos 1)) schema_version_must_be_1
  scenario_id ← require_string raw "id" in_scenario
  title ← require_string raw "title" in_scenario
  implementation_raw ← mapping (must_be_object in_implementation) (get raw "implementation")
  name ← require_string implementation_raw "name" in_implementation
  version ←
      optional_string (must_be_string in_implementation "version")
        (get implementation_raw "version")
  domain_id ← parse_domain_id (get raw "domain_id")
  participants ← parse_participants (get raw "participants")
  grant_order ← parse_grant_order raw participants
  governance ←
      mapping (entry_must_be_object in_scenario "governance") (get_or raw "governance" (obj end))
  topics_raw ← mapping (entry_must_be_object in_scenario "topics") (get_or raw "topics" (obj end))
  topics ← parse_topics topics_raw
  assertions ← parse_assertions (get raw "assertions")
  execution ← parse_execution participants (get raw "execution")
  ok (record {
    schema_version = pos 1;
    scenario_id = scenario_id;
    title = title;
    implementation = name;
    implementation_version = version;
    domain_id = domain_id;
    participants = participants;
    grant_order = grant_order;
    governance = governance;
    topics = topics;
    assertions = assertions;
    execution = execution;
    raw = raw;
    digest = canonical_digest raw;
  })

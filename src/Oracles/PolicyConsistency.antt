-- ===== src/Oracles/PolicyConsistency.antt =====
-- src/ddsleuth/oracles/policy_consistency.py: no access decision grants more than the declared
-- policy.
pub mod Decisions
pub mod Verdict
use ddsleuth.Evidence.{EvidenceBundle}
use ddsleuth.Json.{JsonValue, get, int, str}
use ddsleuth.Model.{AssertionSpec, EvidenceEvent, Scenario, is_kind}
use ddsleuth.Model.EventKind.{access_control_decision}
use ddsleuth.Oracles.Base.{
  Cited, OracleResult, cite, event_sequence, excludes, neither_null_nor_str, pass, sequences,
  undecided, violation,
}
use ddsleuth.Prelude.{
  Bool, List, Option, String, [], collect, concat, false, if◌then◌else◌, none, not, some, ℕ, ℤ,
  ◌&&◌, ◌==◌, ◌||◌, ◌∷◌,
}
use ddsleuth.Semantics.{is_permitted, normalize_operation}

abbrev pub name : String
name = "policy_authorization_consistency"

-- `normalize_operation(operation) or operation`, whose second half serves a name it does not know
abbrev pub or_itself : String → Option String → String
or_itself operation none = operation
or_itself operation (some normalized) = if normalized == "" then operation else normalized

abbrev pub excludes_operation : JsonValue → String → Bool
excludes_operation (str selected) normalized =
    not (normalized == or_itself selected (normalize_operation selected))
excludes_operation _ normalized = false

-- The operation and the resource of a decision that the assertion asks about.
abbrev pub decided : AssertionSpec → JsonValue → JsonValue → Option (String × String)
decided assertion (str operation) (str resource) = elim (normalize_operation operation) [
  | none ↦ none
  | some normalized ↦
      if excludes_operation (get assertion.parameters "operation") normalized
      then none
      else some (operation, resource)
]
decided assertion _ _ = none

abbrev pub decision : AssertionSpec → EvidenceEvent → Option (String × String)
decision assertion event =
    if not (is_kind event access_control_decision)
      || excludes (get assertion.parameters "actor") event.actor
    then none
    else decided assertion (get event.attributes "operation") (get event.attributes "resource")

abbrev pub considered : AssertionSpec → ℕ → EvidenceEvent → Option ℤ
considered assertion index event = elim (decision assertion event) [
  | none ↦ none
  | some _ ↦ some (event_sequence index event.sequence)
]

abbrev pub overgrant : Scenario → AssertionSpec → ℕ → EvidenceEvent → Option Cited
overgrant scenario assertion index event = elim (decision assertion event) [
  | none ↦ none
  | some (operation, resource) ↦
      if event.outcome == "allowed" && not (is_permitted scenario event.actor operation resource)
      then some (cite index event)
      else none
]

-- An attribute in the text of a message; only texts reach it.
abbrev shown : JsonValue → String
shown (str s) = s
shown _ = ""

report : AssertionSpec → List ℤ → List Cited → OracleResult
report assertion examined ((first_sequence, first) ∷ overgrants) = record {
  assertion_id = assertion.assertion_id;
  oracle = name;
  status = violation;
  summary = concat first.actor (
      concat " was allowed to " (
        concat (shown (get first.attributes "operation"))
          " a resource outside its declared policy"));
  evidence_events = sequences ((first_sequence, first) ∷ overgrants);
  details =
      ("actor", str first.actor)
      ∷ ("operation", get first.attributes "operation")
      ∷ ("resource", get first.attributes "resource")
      ∷ ("first_overgrant_event", int first_sequence)
      ∷ [];
}
report assertion (n ∷ examined) [] = record {
  assertion_id = assertion.assertion_id;
  oracle = name;
  status = pass;
  summary = "No observed access decision granted more authority than declared";
  evidence_events = n ∷ examined;
  details = [];
}
report assertion [] [] =
    undecided assertion name "No matching access-control decision was observed" []

unfoldable pub policy_authorization_consistency :
    Scenario → AssertionSpec → EvidenceBundle → OracleResult
unfolding report
policy_authorization_consistency scenario assertion evidence =
    if neither_null_nor_str (get assertion.parameters "actor")
    then undecided assertion name "actor must be a string" []
    else if neither_null_nor_str (get assertion.parameters "operation")
    then undecided assertion name "operation must be a string" []
    else report assertion (collect (considered assertion) 0 evidence.events)
        (collect (overgrant scenario assertion) 0 evidence.events)

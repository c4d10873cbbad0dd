-- ===== src/Oracles/ObserverHealth.antt =====
-- src/ddsleuth/oracles/observer_health.py: the white-box observer reported, and without an error.
pub mod Verdict
use ddsleuth.Evidence.{EvidenceBundle}
use ddsleuth.Json.{JsonValue, get_or, int, str}
use ddsleuth.Model.{AssertionSpec, EvidenceEvent, Scenario}
use ddsleuth.Model.EventKind.{key_material_observed, observer_error, value}
use ddsleuth.Oracles.Base.{OracleResult, event_sequence, not_applicable, pass, undecided}
use ddsleuth.Prelude.{
  List, Option, String, [], collect, if◌then◌else◌, length, none, not, pos, some, ℕ, ℤ, ◌==◌, ◌∷◌,
}
use ddsleuth.Semantics.{named_value}

abbrev pub name : String
name = "observer_health"

abbrev pub of_kind : String → ℕ → EvidenceEvent → Option ℤ
of_kind kind index event =
    if not (event.kind == kind) then none else some (event_sequence index event.sequence)

report : AssertionSpec → String → List ℤ → List ℤ → OracleResult
report assertion required_kind (n ∷ failures) observations = record {
  assertion_id = assertion.assertion_id;
  oracle = name;
  status = not_applicable;
  summary = "White-box observer reported an instrumentation error";
  evidence_events = n ∷ failures;
  details = ("observer_error_count", int (pos (length (n ∷ failures)))) ∷ [];
}
report assertion required_kind [] [] =
    undecided assertion name "Required white-box observer evidence was not emitted"
      (("required_event_kind", str required_kind) ∷ [])
report assertion required_kind [] (n ∷ observations) = record {
  assertion_id = assertion.assertion_id;
  oracle = name;
  status = pass;
  summary = "White-box observer emitted evidence without reporting an error";
  evidence_events = n ∷ observations;
  details =
      ("required_event_kind", str required_kind)
      ∷ ("observation_count", int (pos (length (n ∷ observations))))
      ∷ [];
}

abbrev pub required_event_kind : AssertionSpec → JsonValue
required_event_kind assertion =
    get_or assertion.parameters "required_event_kind" (str (value key_material_observed))

health : AssertionSpec → Option String → List EvidenceEvent → OracleResult
unfolding report
health assertion none events =
    undecided assertion name "required_event_kind must be a non-empty string" []
health assertion (some required_kind) events =
    report assertion required_kind (collect (of_kind (value observer_error)) 0 events)
      (collect (of_kind required_kind) 0 events)

unfoldable pub observer_health : Scenario → AssertionSpec → EvidenceBundle → OracleResult
unfolding health
observer_health scenario assertion evidence =
    health assertion (named_value (required_event_kind assertion)) evidence.events

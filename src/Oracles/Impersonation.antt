-- ===== src/Oracles/Impersonation.antt =====
-- src/ddsleuth/oracles/impersonation.py: no application reader gets attacker-controlled data.
pub mod Verdict
use ddsleuth.Evidence.{EvidenceBundle}
use ddsleuth.Json.{get, int, is_true, str}
use ddsleuth.Model.{AssertionSpec, EvidenceEvent, Scenario, is_kind}
use ddsleuth.Model.EventKind.{application_sample_received, forge_capability, packet_sent}
use ddsleuth.Oracles.Base.{
  Cited, OracleResult, cite, event_sequence, excludes, pass, sequences, undecided, violation,
}
use ddsleuth.Prelude.{
  Bool, List, Option, String, [], collect, concat, if◌then◌else◌, none, not, some, ℕ, ℤ, ◌&&◌, ◌==◌,
  ◌||◌, ◌∷◌,
}

abbrev pub name : String
name = "application_writer_impersonation"

abbrev pub attacker_controlled : EvidenceEvent → Bool
attacker_controlled event = is_true (get event.attributes "attacker_controlled")

abbrev pub is_attempt : AssertionSpec → EvidenceEvent → Bool
is_attempt assertion event =
    (is_kind event forge_capability || is_kind event packet_sent)
    && (not (excludes (get assertion.parameters "attacker") event.actor)
        && (event.outcome == "succeeded" && attacker_controlled event))

-- An event of the attacker's kinds is no delivery: the loop passes on to the test for a sample.
abbrev pub is_delivery : AssertionSpec → EvidenceEvent → Bool
is_delivery assertion event =
    is_kind event application_sample_received
    && (not (excludes (get assertion.parameters "receiver") event.actor)
        && (event.outcome == "received" && attacker_controlled event))

abbrev pub attempt : AssertionSpec → ℕ → EvidenceEvent → Option ℤ
attempt assertion index event =
    if not (is_attempt assertion event) then none else some (event_sequence index event.sequence)

abbrev pub delivery : AssertionSpec → ℕ → EvidenceEvent → Option Cited
delivery assertion index event =
    if not (is_delivery assertion event) then none else some (cite index event)

report : AssertionSpec → List ℤ → List Cited → OracleResult
report assertion attempts ((first_sequence, first) ∷ deliveries) = record {
  assertion_id = assertion.assertion_id;
  oracle = name;
  status = violation;
  summary =
      concat first.actor
        "'s application DataReader returned attacker-controlled data under the protected writer identity";
  evidence_events = sequences ((first_sequence, first) ∷ deliveries);
  details =
      ("receiver", str first.actor)
      ∷ ("sample_index", get first.attributes "sample_index")
      ∷ ("message", get first.attributes "message")
      ∷ ("first_delivery_event", int first_sequence)
      ∷ [];
}
report assertion (n ∷ attempts) [] = record {
  assertion_id = assertion.assertion_id;
  oracle = name;
  status = pass;
  summary = "An attacker-controlled forgery was attempted but no application delivery was observed";
  evidence_events = n ∷ attempts;
  details = [];
}
report assertion [] [] =
    undecided assertion name "No attacker-controlled forgery attempt was observed" []

unfoldable pub application_writer_impersonation :
    Scenario → AssertionSpec → EvidenceBundle → OracleResult
unfolding report
application_writer_impersonation scenario assertion evidence =
    report assertion (collect (attempt assertion) 0 evidence.events)
      (collect (delivery assertion) 0 evidence.events)

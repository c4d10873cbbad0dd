-- ===== src/Oracles/Authorization.antt =====
-- src/ddsleuth/oracles/authorization.py: an actor without subscribe authority obtains no key
-- material of user endpoints. The oracle does not look at the class of a token, though
-- docs/EVENT_MODEL.md asks for publish authority where a datareader token is received.
pub mod Verdict
use ddsleuth.Json.{equals_str, get, is_str, is_true, JsonValue, bool, str, int}
use ddsleuth.Semantics.{actor_has_any_permission}
use ddsleuth.Evidence.{EvidenceBundle}
use ddsleuth.Model.{AssertionSpec, EvidenceEvent, Scenario, is_kind}
use ddsleuth.Model.EventKind.{access_control_decision, key_material_observed}
use ddsleuth.Oracles.Base.{
  Cited, OracleResult, cite, event_sequence, pass, sequences, undecided, violation,
}
use ddsleuth.Prelude.{
  Bool, List, Option, String, [], collect, concat, false, if◌then◌else◌, non_empty, none, not, some,
  ℕ, ℤ, ◌&&◌, ◌++◌, ◌==◌, ◌||◌, ◌∷◌,
}

abbrev pub name : String
name = "unauthorized_key_disclosure"

abbrev pub is_denial : EvidenceEvent → Bool
is_denial event = is_kind event access_control_decision && event.outcome == "denied"

abbrev pub observed_user_token : EvidenceEvent → Bool
observed_user_token event =
    equals_str (get event.attributes "observation_phase") "received"
    && (equals_str (get event.attributes "endpoint_class") "user"
        && is_str (get event.attributes "key_fingerprint"))

abbrev pub holds_key : EvidenceEvent → Bool
holds_key event =
    is_true (get event.attributes "sender_key_present")
    || (is_true (get event.attributes "receiver_specific_key_present") || observed_user_token event)

-- The `elif` of the loop: an event that is no denial.
abbrev pub is_key_event : EvidenceEvent → Bool
is_key_event event =
    not (is_denial event)
    && (is_kind event key_material_observed && (event.outcome == "observed" && holds_key event))

abbrev pub denial : String → ℕ → EvidenceEvent → Option ℤ
denial actor index event =
    if not (event.actor == actor) || not (is_denial event)
    then none
    else some (event_sequence index event.sequence)

abbrev pub key_event : String → ℕ → EvidenceEvent → Option Cited
key_event actor index event =
    if not (event.actor == actor) || not (is_key_event event) then none else some (cite index event)

key_violation : AssertionSpec → String → Bool → List ℤ → Cited → List Cited → OracleResult
key_violation assertion actor denied_by_declared_policy denials (first_sequence, first) rest =
    record {
      assertion_id = assertion.assertion_id;
      oracle = name;
      status = violation;
      summary =
          concat actor " obtained user-endpoint key material despite lacking subscribe authority";
      evidence_events = denials ++ sequences ((first_sequence, first) ∷ rest);
      details =
          ("actor", str actor)
          ∷ ("sender_key_present", get first.attributes "sender_key_present")
          ∷ ("receiver_specific_key_present", get first.attributes "receiver_specific_key_present")
          ∷ ("key_fingerprint", get first.attributes "key_fingerprint")
          ∷ ("destination_endpoint_guid", get first.attributes "destination_endpoint_guid")
          ∷ ("source_endpoint_guid", get first.attributes "source_endpoint_guid")
          ∷ ("first_key_event", int first_sequence)
          ∷ ("declared_policy_denied", bool denied_by_declared_policy)
          ∷ [];
    }

-- What is reported once the key events, if there are any, are no violation.
no_disclosure : AssertionSpec → String → Bool → List ℤ → OracleResult
no_disclosure assertion actor lacks_authority denials =
    if lacks_authority
    then record {
      assertion_id = assertion.assertion_id;
      oracle = name;
      status = pass;
      summary =
          concat actor " lacked subscribe authority and no user-endpoint key material was observed";
      evidence_events = denials;
      details = [];
    }
    else undecided assertion name (concat "No access-control denial was observed for " actor) []

report : AssertionSpec → String → Bool → List ℤ → List Cited → OracleResult
unfolding key_violation no_disclosure
report assertion actor denied_by_declared_policy denials [] =
    no_disclosure assertion actor (non_empty denials || denied_by_declared_policy) denials
report assertion actor denied_by_declared_policy denials (first ∷ rest) =
    if non_empty denials || denied_by_declared_policy
    then key_violation assertion actor denied_by_declared_policy denials first rest
    else no_disclosure assertion actor false denials

disclosure : Scenario → AssertionSpec → JsonValue → List EvidenceEvent → OracleResult
unfolding report
disclosure scenario assertion (str actor) events =
    report assertion actor (not (actor_has_any_permission scenario actor "subscribe" none))
      (collect (denial actor) 0 events) (collect (key_event actor) 0 events)
disclosure scenario assertion _ events =
    undecided assertion name "The assertion does not name an actor" []

unfoldable pub unauthorized_key_disclosure :
    Scenario → AssertionSpec → EvidenceBundle → OracleResult
unfolding disclosure
unauthorized_key_disclosure scenario assertion evidence =
    disclosure scenario assertion (get assertion.parameters "actor") evidence.events

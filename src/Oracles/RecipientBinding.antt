-- ===== src/Oracles/RecipientBinding.antt =====
-- src/ddsleuth/oracles/recipient_binding.py: a plaintext CryptoToken is addressed to the
-- participant that observes it.
pub mod Verdict
use ddsleuth.Prelude.{
  ℕ, String, Bool, true, false, not, ◌&&◌, ◌||◌, Option, none, some, List, [], ◌∷◌, ◌==◌, collect,
  concat, if◌then◌else◌,
}
use ddsleuth.Json.{JsonValue, str, int, get}
use ddsleuth.Model.{AssertionSpec, EvidenceEvent, Scenario, is_kind}
use ddsleuth.Model.EventKind.{crypto_token_observed}
use ddsleuth.Evidence.{EvidenceBundle}
use ddsleuth.Oracles.Base.{
  OracleResult, OracleStatus, pass, violation, Cited, cite, sequences, undecided, excludes,
  excludes_value,
}

abbrev pub name : String
name = "crypto_token_recipient_binding"

-- The three `continue` guards of the loop.
abbrev pub skips : AssertionSpec → EvidenceEvent → Bool
skips assertion event =
    not (is_kind event crypto_token_observed)
    || (excludes (get assertion.parameters "observer") event.actor
        || excludes_value (get assertion.parameters "token_class")
            (get event.attributes "token_class"))

abbrev pub differ : JsonValue → JsonValue → Bool
differ (str local) (str destination) = not (local == destination)
differ _ _ = false

abbrev pub addressed_elsewhere : EvidenceEvent → Bool
addressed_elsewhere event =
    differ (get event.attributes "local_participant_guid")
      (get event.attributes "destination_participant_guid")

-- The loop appends to two lists: here each has a pass of its own.
abbrev pub candidate : AssertionSpec → ℕ → EvidenceEvent → Option Cited
candidate assertion index event = if skips assertion event then none else some (cite index event)

abbrev pub misaddressed : AssertionSpec → ℕ → EvidenceEvent → Option Cited
misaddressed assertion index event =
    if skips assertion event || not (addressed_elsewhere event)
    then none
    else some (cite index event)

report : AssertionSpec → List Cited → List Cited → OracleResult
report assertion candidates ((first_sequence, first) ∷ violations) = record {
  assertion_id = assertion.assertion_id;
  oracle = name;
  status = violation;
  summary =
      concat first.actor " observed a plaintext CryptoToken addressed to a different participant";
  evidence_events = sequences ((first_sequence, first) ∷ violations);
  details =
      ("observer", str first.actor)
      ∷ ("local_participant_guid", get first.attributes "local_participant_guid")
      ∷ ("destination_participant_guid", get first.attributes "destination_participant_guid")
      ∷ ("destination_endpoint_guid", get first.attributes "destination_endpoint_guid")
      ∷ ("source_endpoint_guid", get first.attributes "source_endpoint_guid")
      ∷ ("first_violation_event", int first_sequence)
      ∷ [];
}
report assertion (candidate ∷ candidates) [] = record {
  assertion_id = assertion.assertion_id;
  oracle = name;
  status = pass;
  summary = "All observed CryptoTokens were addressed to the observing participant";
  evidence_events = sequences (candidate ∷ candidates);
  details = [];
}
report assertion [] [] =
    undecided assertion name "No matching plaintext CryptoToken observation was available" []

unfoldable pub recipient_binding : Scenario → AssertionSpec → EvidenceBundle → OracleResult
unfolding report
recipient_binding scenario assertion evidence =
    report assertion (collect (candidate assertion) 0 evidence.events)
      (collect (misaddressed assertion) 0 evidence.events)

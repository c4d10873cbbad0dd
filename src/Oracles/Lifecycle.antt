-- ===== src/Oracles/Lifecycle.antt =====
-- src/ddsleuth/oracles/lifecycle.py: no revoked authority yields a capability afterwards.
pub mod Revocations
pub mod Uses
pub mod Verdict
use ddsleuth.Evidence.{EvidenceBundle}
use ddsleuth.Json.{Dict, JsonValue, as_str, get, insert, int, lookup, str}
use ddsleuth.Model.{AssertionSpec, EvidenceEvent, Scenario, is_kind}
use ddsleuth.Model.EventKind.{
  application_sample_received, authority_revoked, decrypt_capability, forge_capability,
  protected_message_accepted,
}
use ddsleuth.Oracles.Base.{
  OracleResult, event_sequence, excludes, neither_null_nor_str, pass, undecided, violation,
}
use ddsleuth.Prelude.{
  Bool, List, Option, String, [], collect, if◌then◌else◌, lt_int, map, none, not, some, sorted,
  sorted_ints, suc, ℕ, ℤ, ◌++◌, ◌==◌, ◌||◌, ◌∷◌,
}

abbrev pub name : String
name = "revoked_authority_reuse"

-- The authority that a revocation event of the selected actor revokes.
abbrev pub revoked_authority : JsonValue → EvidenceEvent → Option String
revoked_authority actor event =
    if not (is_kind event authority_revoked)
      || (not (event.outcome == "succeeded") || excludes actor event.actor)
    then none
    else as_str (get event.attributes "authority_id")

abbrev pub note_revocation : Option String → ℤ → Dict ℤ → Dict ℤ
note_revocation none sequence revocations = revocations
note_revocation (some authority_id) sequence revocations = insert authority_id sequence revocations

-- The first loop: a later revocation of the same authority replaces an earlier one. The event
-- that the source keeps beside the sequence number is never read.
pub revocations_from : JsonValue → ℕ → List EvidenceEvent → Dict ℤ → Dict ℤ
revocations_from actor index [] revocations = revocations
revocations_from actor index (event ∷ events) revocations =
    revocations_from actor (suc index) events (
      note_revocation (revoked_authority actor event) (event_sequence index event.sequence)
        revocations)

abbrev pub is_capability : EvidenceEvent → Bool
is_capability event =
    is_kind event decrypt_capability
    || (is_kind event forge_capability
        || (is_kind event protected_message_accepted
            || (is_kind event application_sample_received
                || event.kind == "capability.availability")))

abbrev pub is_accepted : EvidenceEvent → Bool
is_accepted event =
    event.outcome == "succeeded" || (event.outcome == "accepted" || event.outcome == "received")

-- The authority that an accepted capability event used.
abbrev pub used_authority : EvidenceEvent → Option String
used_authority event =
    if not (is_capability event) || not (is_accepted event)
    then none
    else as_str (get event.attributes "authority_id")

abbrev revoked_at : Dict ℤ → Option String → Option ℤ
revoked_at revocations none = none
revoked_at revocations (some authority_id) = lookup authority_id revocations

-- A use behind the revocation: its sequence number, its event and the revocation's number.
abbrev pub stale_use : Dict ℤ → ℕ → EvidenceEvent → Option (ℤ × EvidenceEvent × ℤ)
stale_use revocations index event = elim (revoked_at revocations (used_authority event)) [
  | none ↦ none
  | some at ↦
      if lt_int at (event_sequence index event.sequence)
      then some (event_sequence index event.sequence, event, at)
      else none
]

abbrev Use : Type 0
Use = ℤ × EvidenceEvent × ℤ

report : AssertionSpec → Dict ℤ → List Use → OracleResult
report assertion revocations ((sequence, first, at) ∷ uses) = record {
  assertion_id = assertion.assertion_id;
  oracle = name;
  status = violation;
  summary = "A revoked authority still produced an accepted security capability";
  evidence_events = sorted_ints (
      map (λ (use_ : Use). use_.2) ((sequence, first, at) ∷ uses)
      ++ map (λ (use_ : Use). use_.0) ((sequence, first, at) ∷ uses));
  details =
      ("authority_id", get first.attributes "authority_id")
      ∷ ("capability_kind", str first.kind)
      ∷ ("revocation_event", int at)
      ∷ ("first_stale_use_event", int sequence)
      ∷ [];
}
report assertion revocations [] = record {
  assertion_id = assertion.assertion_id;
  oracle = name;
  status = pass;
  summary = "No revoked authority was observed producing a later capability";
  evidence_events = sorted lt_int (map (λ (entry : String × ℤ). entry.1) revocations);
  details = [];
}

judge : AssertionSpec → Dict ℤ → List EvidenceEvent → OracleResult
unfolding report
judge assertion [] events =
    undecided assertion name "No matching authority revocation was observed" []
judge assertion (revocation ∷ revocations) events =
    report assertion (revocation ∷ revocations)
      (collect (stale_use (revocation ∷ revocations)) 0 events)

unfoldable pub revoked_authority_reuse : Scenario → AssertionSpec → EvidenceBundle → OracleResult
unfolding judge revocations_from
revoked_authority_reuse scenario assertion evidence =
    if neither_null_nor_str (get assertion.parameters "actor")
    then undecided assertion name "actor must be a string" []
    else judge assertion (revocations_from (get assertion.parameters "actor") 0 evidence.events [])
        evidence.events

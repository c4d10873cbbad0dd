-- ===== src/Oracles/Evaluate/Capabilities.antt =====
-- `_capabilities` of src/ddsleuth/oracles/evaluate.py: what a run demonstrated, whatever its
-- assertions are.
pub mod Levels
use ddsleuth.Json.{Dict, get, is_true}
use ddsleuth.Model.{EvidenceEvent, Scenario, is_kind}
use ddsleuth.Model.EventKind.{
  application_sample_received, decrypt_capability, forge_capability, protected_message_accepted,
}
use ddsleuth.Oracles.Base.{event_sequence}
use ddsleuth.Prelude.{
  Bool, List, Option, String, [], collect, false, if◌then◌else◌, none, not, some, ℕ, ℤ, ◌&&◌, ◌==◌,
  ◌||◌, ◌∷◌,
}
use ddsleuth.Semantics.{event_resource, is_permitted}

pub record CapabilityAssessment : Type 0 where
  pub confidentiality : String
  pub integrity : String
  pub availability : String
  pub evidence_events : Dict (List ℤ)

-- The sample is of a resource that its reader may not subscribe to.
abbrev pub outside_policy : Scenario → String → Option String → Bool
outside_policy scenario actor none = false
outside_policy scenario actor (some resource) =
    not (is_permitted scenario actor "subscribe" resource)

abbrev pub is_decryption : EvidenceEvent → Bool
is_decryption event = is_kind event decrypt_capability && event.outcome == "succeeded"

abbrev pub is_leak : Scenario → EvidenceEvent → Bool
is_leak scenario event =
    is_kind event application_sample_received
    && (event.outcome == "received"
        && outside_policy scenario event.actor (event_resource scenario event "subscribe"))

abbrev pub is_forged : EvidenceEvent → Bool
is_forged event =
    (is_kind event forge_capability
      || (is_kind event protected_message_accepted || is_kind event application_sample_received))
    && ((event.outcome == "succeeded"
          || (event.outcome == "accepted" || event.outcome == "received"))
        && is_true (get event.attributes "attacker_controlled"))

abbrev pub is_outage : EvidenceEvent → Bool
is_outage event = event.kind == "capability.availability" && event.outcome == "succeeded"

abbrev pub numbered : (EvidenceEvent → Bool) → ℕ → EvidenceEvent → Option ℤ
numbered test index event = if test event then some (event_sequence index event.sequence) else none

-- The two tests of the source append in turn; as their kinds differ, an event passes one at most.
abbrev pub confidentiality_loss : Scenario → EvidenceEvent → Bool
confidentiality_loss scenario event = is_decryption event || is_leak scenario event

abbrev pub level : List ℤ → String
level [] = "not_demonstrated"
level (n ∷ ns) = "high"

unfoldable pub assess : Scenario → List EvidenceEvent → CapabilityAssessment
assess scenario events =
    let confidentiality = collect (numbered (confidentiality_loss scenario)) 0 events in
    let integrity = collect (numbered is_forged) 0 events in
    let availability = collect (numbered is_outage) 0 events in
    record {
      confidentiality = level confidentiality;
      integrity = level integrity;
      availability = level availability;
      evidence_events =
          ("confidentiality", confidentiality)
          ∷ ("integrity", integrity)
          ∷ ("availability", availability)
          ∷ [];
    }

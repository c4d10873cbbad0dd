-- ===== src/Oracles/Tests.antt =====
-- The theorems about src/ddsleuth/oracles at concrete runs.
use ddsleuth.Evidence.{EvidenceBundle, create}
use ddsleuth.Json.{bool, str}
use ddsleuth.Model.{Scenario, AssertionSpec, EvidenceEvent}
use ddsleuth.Model.EventKind.{
  access_control_decision, application_sample_received, authority_revoked, decrypt_capability,
  key_material_observed, observer_error, crypto_token_observed, value,
}
use ddsleuth.Prelude.{Occurs, arith, eq_iff, some, true, ℕ, ◌↔◌, ◌≢◌, pos, [], refl, ◌∷◌, ◌≡◌}
use ddsleuth.Samples.{recorded, asks, event, exits, scenario_with}
use ddsleuth.Oracles.Base.{DecidedBy, pass, violation}
use ddsleuth.Oracles.Authorization.{unauthorized_key_disclosure}
use ddsleuth.Oracles.Impersonation.{application_writer_impersonation}
use ddsleuth.Oracles.Impersonation.Verdict.{
  IsAttempt, IsDelivery, application_writer_impersonation_verdict,
}
use ddsleuth.Oracles.Lifecycle.{revoked_authority_reuse}
use ddsleuth.Oracles.ObserverHealth.{observer_health}
use ddsleuth.Oracles.ObserverHealth.Verdict.{IsOfKind, observer_health_verdict}
use ddsleuth.Oracles.PolicyConsistency.Decisions.{IsDecision, IsOvergrant}
use ddsleuth.Oracles.PolicyConsistency.{policy_authorization_consistency}
use ddsleuth.Oracles.PolicyConsistency.Verdict.{policy_authorization_consistency_verdict}
use ddsleuth.Oracles.RecipientBinding.{recipient_binding}
use ddsleuth.Oracles.RecipientBinding.Verdict.{
  IsMisaddressed, IsObservation, recipient_binding_verdict,
}
use ddsleuth.Semantics.{actor_has_any_permission, is_permitted}

abbrev binding : AssertionSpec
binding = asks "crypto_token_recipient_binding" []

abbrev misrouted_token : EvidenceEvent
misrouted_token =
    event (value crypto_token_observed) "mallory" "observed"
      (("local_participant_guid", str "01.0f") ∷ ("destination_participant_guid", str "02.0f") ∷ [])

abbrev misrouted_run : EvidenceBundle
misrouted_run = recorded (misrouted_token ∷ exits)

abbrev experiment : Scenario
experiment = scenario_with (binding ∷ [])

recipient_binding_verdict_example :
    DecidedBy
      (λ event. IsObservation binding event × IsMisaddressed event)
      (IsObservation binding)
      (recipient_binding experiment binding misrouted_run).status
      misrouted_run.events
recipient_binding_verdict_example = recipient_binding_verdict binding experiment misrouted_run

abbrev disclosure : AssertionSpec
disclosure = asks "unauthorized_key_disclosure" (("actor", str "mallory") ∷ [])

abbrev disclosed_key : EvidenceEvent
disclosed_key =
    event (value key_material_observed) "mallory" "observed"
      (("sender_key_present", bool true) ∷ [])

abbrev disclosed_run : EvidenceBundle
disclosed_run = recorded (disclosed_key ∷ exits)

disclosed_violates :
    (unauthorized_key_disclosure experiment disclosure disclosed_run).status ≡ violation
unfolding unauthorized_key_disclosure create actor_has_any_permission
disclosed_violates = refl

abbrev impersonation : AssertionSpec
impersonation = asks "application_writer_impersonation" (("receiver", str "bob") ∷ [])

abbrev forged_run : EvidenceBundle
forged_run = recorded (
    event (value application_sample_received) "bob" "received"
      (("attacker_controlled", bool true) ∷ [])
    ∷ exits)

application_writer_impersonation_verdict_example :
    DecidedBy
      (IsDelivery impersonation)
      (IsAttempt impersonation)
      (application_writer_impersonation experiment impersonation forged_run).status
      forged_run.events
application_writer_impersonation_verdict_example =
    application_writer_impersonation_verdict impersonation experiment forged_run

abbrev health_check : AssertionSpec
health_check = asks "observer_health" []

observer_health_verdict_example :
    (((observer_health experiment health_check disclosed_run).status ≡ pass) ↔ (
      (¬ Occurs (IsOfKind (value observer_error)) disclosed_run.events)
      × Occurs (IsOfKind (value key_material_observed)) disclosed_run.events))
    × ((observer_health experiment health_check disclosed_run).status ≢ violation)
observer_health_verdict_example =
    observer_health_verdict experiment health_check disclosed_run (value key_material_observed) refl
      (λ e. ground (arith, eq_iff "key_material.observed" ""))

abbrev consistency : AssertionSpec
consistency = asks "policy_authorization_consistency" []

abbrev overgrant_run : EvidenceBundle
overgrant_run = recorded (
    event (value access_control_decision) "mallory" "allowed"
      (("operation", str "create_datareader") ∷ ("resource", str "SecretTopic") ∷ [])
    ∷ exits)

policy_authorization_consistency_verdict_example :
    DecidedBy
      (IsOvergrant experiment consistency)
      (IsDecision consistency)
      (policy_authorization_consistency experiment consistency overgrant_run).status
      overgrant_run.events
policy_authorization_consistency_verdict_example =
    policy_authorization_consistency_verdict experiment consistency overgrant_run refl refl

overgrant_violates :
    (policy_authorization_consistency experiment consistency overgrant_run).status ≡ violation
unfolding policy_authorization_consistency create is_permitted
overgrant_violates = refl

abbrev reuse : AssertionSpec
reuse = asks "revoked_authority_reuse" []

abbrev revocation : EvidenceEvent
revocation = event (value authority_revoked) "bob" "succeeded" (("authority_id", str "k1") ∷ [])

abbrev decryption : EvidenceEvent
decryption =
    event (value decrypt_capability) "mallory" "succeeded" (("authority_id", str "k1") ∷ [])

abbrev reused_run : EvidenceBundle
reused_run = recorded (revocation ∷ decryption ∷ [])

abbrev at_position : ℕ → EvidenceEvent → EvidenceEvent
at_position n e = record e { sequence = some (pos n) }

abbrev overlooked_run : EvidenceBundle
overlooked_run = record reused_run {
  events = at_position 0 revocation ∷ at_position 1 decryption ∷ at_position 2 revocation ∷ [];
}

-- A use between two revocations of its authority is not reported.
overlooked_lem : (revoked_authority_reuse experiment reuse overlooked_run).status ≡ pass
unfolding revoked_authority_reuse
overlooked_lem = refl

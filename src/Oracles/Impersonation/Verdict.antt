-- ===== src/Oracles/Impersonation/Verdict.antt =====
-- When the oracle of src/ddsleuth/oracles/impersonation.py reports a violation, and when it passes.
use ddsleuth.Evidence.{EvidenceBundle}
use ddsleuth.Json.{bool, get}
use ddsleuth.Model.{AssertionSpec, EvidenceEvent, Scenario}
use ddsleuth.Model.EventKind.{application_sample_received, forge_capability, packet_sent, value}
use ddsleuth.Oracles.Base.{
  Cited, DecidedBy, Finds-skip, Selects, Selects-not-excludes, cite, event_sequence, is_true_eq,
  not-excludes_of_Selects, pass, verdict_iff, violation,
}
use ddsleuth.Oracles.Impersonation.{
  report, application_writer_impersonation, attempt, delivery, is_attempt, is_delivery,
}
use ddsleuth.Prelude.{
  Finds, List, [], arith, eq_iff, false, non_empty, not, refl, true, ℤ, ◌↔◌, ◌∷◌, ◌≡◌, ◌⊎◌,
}

-- A sample with attacker-controlled data that the application reader of the assertion returned.
pub record IsDelivery (assertion : AssertionSpec) (event : EvidenceEvent) : Type 0 where
  pub sample : event.kind ≡ value application_sample_received
  pub receiver : Selects (get assertion.parameters "receiver") event.actor
  pub outcome : event.outcome ≡ "received"
  pub controlled : get event.attributes "attacker_controlled" ≡ bool true

-- A forgery or a packet that the attacker of the assertion succeeded to send.
pub record IsAttempt (assertion : AssertionSpec) (event : EvidenceEvent) : Type 0 where
  pub forged : (event.kind ≡ value forge_capability) ⊎ (event.kind ≡ value packet_sent)
  pub attacker : Selects (get assertion.parameters "attacker") event.actor
  pub outcome : event.outcome ≡ "succeeded"
  pub controlled : get event.attributes "attacker_controlled" ≡ bool true

module _ (assertion : AssertionSpec) where
  delivery-Finds : Finds (delivery assertion) (IsDelivery assertion)
  delivery-Finds =
      Finds-skip (λ event. not (is_delivery assertion event)) cite
        (λ event h. record {
          sample = ground (arith, eq_iff event.kind "application.sample_received");
          receiver = Selects-not-excludes _ _ (ground arith);
          outcome = ground (arith, eq_iff event.outcome "received");
          controlled = is_true_eq _ (ground arith);
        })
        (λ event d. ground (
          arith,
          eq_iff event.kind "application.sample_received",
          eq_iff event.outcome "received",
          not-excludes_of_Selects (get assertion.parameters "receiver") event.actor d.receiver,
        ))

  attempt-Finds : Finds (attempt assertion) (IsAttempt assertion)
  attempt-Finds =
      Finds-skip (λ event. not (is_attempt assertion event))
        (λ index event. event_sequence index event.sequence)
        (λ event h. record {
          forged = ground (
            arith,
            eq_iff event.kind "capability.forge",
            eq_iff event.kind "network.packet_sent",
          );
          attacker = Selects-not-excludes _ _ (ground arith);
          outcome = ground (arith, eq_iff event.outcome "succeeded");
          controlled = is_true_eq _ (ground arith);
        })
        (λ event d. ground (
          arith,
          eq_iff event.kind "capability.forge",
          eq_iff event.kind "network.packet_sent",
          eq_iff event.outcome "succeeded",
          not-excludes_of_Selects (get assertion.parameters "attacker") event.actor d.attacker,
        ))

  report_violation_iff :
      (attempts : List ℤ) (deliveries : List Cited)
      → ((report assertion attempts deliveries).status ≡ violation) ↔ (non_empty deliveries ≡ true)
  unfolding report
  report_violation_iff attempts (d ∷ deliveries) = (λ h. refl, λ h. refl)
  report_violation_iff (n ∷ attempts) [] = (λ h. cc, λ h. cc)
  report_violation_iff [] [] = (λ h. cc, λ h. cc)

  report_pass_iff :
      (attempts : List ℤ) (deliveries : List Cited)
      → ((report assertion attempts deliveries).status ≡ pass)
        ↔ ((non_empty attempts ≡ true) × (non_empty deliveries ≡ false))
  unfolding report
  report_pass_iff attempts (d ∷ deliveries) = (λ h. cc, λ h. cc)
  report_pass_iff (n ∷ attempts) [] = (λ h. (refl, refl), λ h. refl)
  report_pass_iff [] [] = (λ h. cc, λ h. cc)

  -- The oracle reports a violation exactly when the selected application reader returned a sample
  -- with attacker-controlled data. It passes exactly when the selected attacker succeeded to send
  -- attacker-controlled data and no such sample was returned.
  pub application_writer_impersonation_verdict :
      (scenario : Scenario) (evidence : EvidenceBundle)
      → DecidedBy
          (IsDelivery assertion)
          (IsAttempt assertion)
          (application_writer_impersonation scenario assertion evidence).status
          evidence.events
  unfolding application_writer_impersonation
  application_writer_impersonation_verdict scenario evidence =
      verdict_iff delivery-Finds attempt-Finds evidence.events (report_violation_iff _ _)
        (report_pass_iff _ _)

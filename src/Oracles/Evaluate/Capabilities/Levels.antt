-- ===== src/Oracles/Evaluate/Capabilities/Levels.antt =====
-- What the levels of `_capabilities` of src/ddsleuth/oracles/evaluate.py say of a run.
use ddsleuth.Json.{bool, get, is_true}
use ddsleuth.Model.{EvidenceEvent, Scenario, is_kind}
use ddsleuth.Model.EventKind.{
  application_sample_received, decrypt_capability, forge_capability, protected_message_accepted,
  value,
}
use ddsleuth.Oracles.Base.{event_sequence, is_true_eq}
use ddsleuth.Oracles.Evaluate.Capabilities.{
  assess, confidentiality_loss, is_decryption, is_forged, is_leak, is_outage, level, numbered,
  outside_policy,
}
use ddsleuth.Prelude.{
  Bool, Bool-cases, Finds, List, Occurs, Option, String, [], and-true, arith, collect,
  empty-collect_iff, eq_iff, false, inl, inr, non_empty, non_empty-collect_iff, none, not-true,
  or-true, refl, some, true, true_of_or, ℤ, ◌==◌, ◌||◌, ◌↔◌, ◌∷◌, ◌≡◌, ◌⊎◌,
}
use ddsleuth.Semantics.{event_resource, is_permitted}

-- A sample was received of a resource that the reader may not subscribe to.
pub record IsLeak (scenario : Scenario) (event : EvidenceEvent) : Type 0 where
  pub of_kind : event.kind ≡ value application_sample_received
  pub outcome : event.outcome ≡ "received"
  pub resource : String
  pub named : event_resource scenario event "subscribe" ≡ some resource
  pub not_permitted : is_permitted scenario event.actor "subscribe" resource ≡ false

-- Protected data was decrypted, or leaked.
abbrev pub LosesConfidentiality : Scenario → EvidenceEvent → Type 0
LosesConfidentiality scenario event =
    ((event.kind ≡ value decrypt_capability) × (event.outcome ≡ "succeeded"))
    ⊎ IsLeak scenario event

-- Attacker-controlled data was forged, accepted or received.
pub record LosesIntegrity (event : EvidenceEvent) : Type 0 where
  pub of_kind :
      (event.kind ≡ value forge_capability)
      ⊎ ((event.kind ≡ value protected_message_accepted)
          ⊎ (event.kind ≡ value application_sample_received))
  pub outcome :
      (event.outcome ≡ "succeeded") ⊎ ((event.outcome ≡ "accepted") ⊎ (event.outcome ≡ "received"))
  pub controlled : get event.attributes "attacker_controlled" ≡ bool true

abbrev pub LosesAvailability : EvidenceEvent → Type 0
LosesAvailability event = (event.kind ≡ "capability.availability") × (event.outcome ≡ "succeeded")

module _ (scenario : Scenario) (event : EvidenceEvent) where
  resource_outside :
      (o : Option String)
      → event_resource scenario event "subscribe" ≡ o
      → outside_policy scenario event.actor o ≡ true
      → event.kind ≡ value application_sample_received
      → event.outcome ≡ "received"
      → IsLeak scenario event
  resource_outside none e h kind outcome = cc
  resource_outside (some r) e h kind outcome = record {
    of_kind = kind;
    outcome = outcome;
    resource = r;
    named = e;
    not_permitted = not-true _ h;
  }

  IsLeak-iff : (is_leak scenario event ≡ true) ↔ IsLeak scenario event
  IsLeak-iff = (
    λ h.
        let (kind, more) = and-true (is_kind event application_sample_received) _ h in
        let (outcome, outside) = and-true (event.outcome == "received") _ more in
        resource_outside (event_resource scenario event "subscribe") refl outside
          ((eq_iff event.kind (value application_sample_received)).0 kind)
          ((eq_iff event.outcome "received").0 outcome),
    λ l.
        let kind : is_kind event application_sample_received ≡ true =
          (eq_iff event.kind _).1 l.of_kind in
        let outcome : (event.outcome == "received") ≡ true = (eq_iff event.outcome _).1 l.outcome in
        let outside : outside_policy scenario event.actor
              (event_resource scenario event "subscribe")
            ≡ true =
          rw (l.named, l.not_permitted) refl in
        rw (kind, outcome, outside) refl,
  )

  LosesConfidentiality-iff :
      (confidentiality_loss scenario event ≡ true) ↔ LosesConfidentiality scenario event
  LosesConfidentiality-iff = (
    λ h. elim (or-true (is_decryption event) (is_leak scenario event) h) [
      | inl d ↦
          let (kind, outcome) = and-true (is_kind event decrypt_capability) _ d in
          inl ((eq_iff event.kind _).0 kind, (eq_iff event.outcome "succeeded").0 outcome)
      | inr l ↦ inr (IsLeak-iff.0 l)
    ],
    λ l. elim l [
      | inl (kind, outcome) ↦ rw (kind, outcome) refl
      | inr leak ↦
          true_of_or (is_decryption event) (is_leak scenario event) (inr (IsLeak-iff.1 leak))
    ],
  )

LosesIntegrity-iff : (event : EvidenceEvent) → (is_forged event ≡ true) ↔ LosesIntegrity event
LosesIntegrity-iff event = (
  λ h.
      let (kind, more) =
        and-true
          (is_kind event forge_capability
            || (is_kind event protected_message_accepted
                || is_kind event application_sample_received))
          _ h in
      let (outcome, controlled) =
        and-true
          (event.outcome == "succeeded"
            || (event.outcome == "accepted" || event.outcome == "received"))
          _ more in
      record {
        of_kind = ground (
          arith,
          kind,
          eq_iff event.kind "capability.forge",
          eq_iff event.kind "crypto.protected_message_accepted",
          eq_iff event.kind "application.sample_received",
        );
        outcome = ground (
          arith,
          outcome,
          eq_iff event.outcome "succeeded",
          eq_iff event.outcome "accepted",
          eq_iff event.outcome "received",
        );
        controlled = is_true_eq _ controlled;
      },
  λ l.
      let controlled : is_true (get event.attributes "attacker_controlled") ≡ true =
        rw (l.controlled) refl in
      ground (
        arith,
        l.of_kind,
        l.outcome,
        controlled,
        eq_iff event.kind "capability.forge",
        eq_iff event.kind "crypto.protected_message_accepted",
        eq_iff event.kind "application.sample_received",
        eq_iff event.outcome "succeeded",
        eq_iff event.outcome "accepted",
        eq_iff event.outcome "received",
      ),
)

LosesAvailability-iff : (event : EvidenceEvent) → (is_outage event ≡ true) ↔ LosesAvailability event
LosesAvailability-iff event = (
  λ h.
      let (kind, outcome) = and-true (event.kind == "capability.availability") _ h in
      ((eq_iff event.kind _).0 kind, (eq_iff event.outcome "succeeded").0 outcome),
  λ (kind, outcome). rw (kind, outcome) refl,
)

module _ {P : EvidenceEvent → Type 0} (test : EvidenceEvent → Bool)
    (decides : (event : EvidenceEvent) → (test event ≡ true) ↔ P event) where
  Finds-numbered : Finds (numbered test) P
  Finds-numbered = record {
    sound = λ index event b h. elim (Bool-cases (test event)) [
      | inl e ↦ (decides event).0 e
      | inr e ↦ let nothing : none ≡ some b = rw (e, numbered) at h in cc
    ];
    complete = λ index event p.
        (event_sequence index event.sequence, rw (numbered, (decides event).1 p) refl);
  }

  level_iff :
      (events : List EvidenceEvent)
      → ((level (collect (numbered test) 0 events) ≡ "high") ↔ Occurs P events)
        × ((level (collect (numbered test) 0 events) ≡ "not_demonstrated") ↔ (¬ Occurs P events))
  level_iff events =
      let some_found = non_empty-collect_iff Finds-numbered events in
      let none_found = empty-collect_iff Finds-numbered events in
      by_found (collect (numbered test) 0 events) some_found none_found
    where
      by_found :
          (found : List ℤ)
          → (non_empty found ≡ true) ↔ Occurs P events
          → (non_empty found ≡ false) ↔ (¬ Occurs P events)
          → ((level found ≡ "high") ↔ Occurs P events)
            × ((level found ≡ "not_demonstrated") ↔ (¬ Occurs P events))
      by_found [] some_found none_found = (
        (
          λ h. absurd (ground (arith, h, eq_iff "not_demonstrated" "high")),
          λ o. absurd (none_found.0 refl o),
        ),
        (λ h. none_found.0 refl, λ h. refl),
      )
      by_found (n ∷ found) some_found none_found = (
        (λ h. some_found.0 refl, λ o. refl),
        (
          λ h. absurd (ground (arith, h, eq_iff "high" "not_demonstrated")),
          λ n. absurd (n (some_found.0 refl)),
        ),
      )

-- Each level is "high" exactly if some event of the run demonstrates the loss, and is
-- "not_demonstrated" exactly if none does: of confidentiality, protected data that was decrypted or
-- received by a reader whom the declared policy denies its resource; of integrity, data of an
-- attacker that was forged, accepted or received; of availability, a successful outage.
pub assess_levels :
    (scenario : Scenario) (events : List EvidenceEvent)
    → let capabilities = assess scenario events in
      (((capabilities.confidentiality ≡ "high") ↔ Occurs (LosesConfidentiality scenario) events)
        × ((capabilities.confidentiality ≡ "not_demonstrated")
            ↔ (¬ Occurs (LosesConfidentiality scenario) events)))
      × (((capabilities.integrity ≡ "high") ↔ Occurs LosesIntegrity events)
          × ((capabilities.integrity ≡ "not_demonstrated") ↔ (¬ Occurs LosesIntegrity events)))
      × (((capabilities.availability ≡ "high") ↔ Occurs LosesAvailability events)
          × ((capabilities.availability ≡ "not_demonstrated")
              ↔ (¬ Occurs LosesAvailability events)))
unfolding assess
assess_levels scenario events = (
  level_iff (confidentiality_loss scenario) (LosesConfidentiality-iff scenario) events,
  level_iff is_forged LosesIntegrity-iff events,
  level_iff is_outage LosesAvailability-iff events,
)

-- ===== src/Oracles/RecipientBinding/Verdict.antt =====
-- When the oracle of src/ddsleuth/oracles/recipient_binding.py reports a violation, and when it
-- passes.
use ddsleuth.Prelude.{
  String, ◌≡◌, ◌≢◌, ◌↔◌, refl, true, false, not, ◌||◌, List, [], ◌∷◌, Finds, non_empty, or-false,
  not-false, eq_iff, arith,
}
use ddsleuth.Json.{JsonValue, str, get}
use ddsleuth.Model.{AssertionSpec, EvidenceEvent, Scenario}
use ddsleuth.Model.EventKind
use ddsleuth.Evidence.{EvidenceBundle}
use ddsleuth.Oracles.Base.{
  DecidedBy, Finds-skip, pass, violation, Cited, cite, verdict_iff, Selects, SelectsValue,
  Selects-not-excludes, not-excludes_of_Selects, verdict_iff, SelectsValue-not-excludes_value,
  not-excludes_value_of_SelectsValue,
}
use ddsleuth.Oracles.RecipientBinding.{
  skips, differ, addressed_elsewhere, candidate, misaddressed, report, recipient_binding,
}
use ddsleuth.Model.EventKind.{EventKind, crypto_token_observed, value}

-- A token observation that the assertion asks about.
pub record IsObservation (assertion : AssertionSpec) (event : EvidenceEvent) : Type 0 where
  pub token : event.kind ≡ EventKind.value EventKind.crypto_token_observed
  pub observer : Selects (get assertion.parameters "observer") event.actor
  pub token_class :
      SelectsValue (get assertion.parameters "token_class") (get event.attributes "token_class")

-- The event names two different participants as its observer and its addressee.
pub record IsMisaddressed (event : EvidenceEvent) : Type 0 where
  pub local : String
  pub destination : String
  pub observed_by : get event.attributes "local_participant_guid" ≡ str local
  pub addressed_to : get event.attributes "destination_participant_guid" ≡ str destination
  pub differs : local ≢ destination

module _ (assertion : AssertionSpec) (event : EvidenceEvent) where
  IsObservation-not-skips : skips assertion event ≡ false → IsObservation assertion event
  IsObservation-not-skips h = record {
    token = ground (arith, eq_iff event.kind "crypto_token.observed");
    observer = Selects-not-excludes _ _ (ground arith);
    token_class = SelectsValue-not-excludes_value _ _ (ground arith);
  }

  not-skips_of_IsObservation : IsObservation assertion event → skips assertion event ≡ false
  not-skips_of_IsObservation o = ground (
    arith,
    eq_iff event.kind "crypto_token.observed",
    not-excludes_of_Selects (get assertion.parameters "observer") event.actor o.observer,
    not-excludes_value_of_SelectsValue (get assertion.parameters "token_class")
        (get event.attributes "token_class") o.token_class,
  )

differ_sound :
    (a b : JsonValue)
    → differ a b ≡ true
    → (s : String) × (t : String) × (a ≡ str s) × (b ≡ str t) × (s ≢ t)
differ_sound (str s) (str t) h = (s, t, refl, refl, λ e. ground (arith, eq_iff s t))
differ_sound _ _ h = cc

differ_complete : (s t : String) → s ≢ t → differ (str s) (str t) ≡ true
differ_complete s t h = ground (arith, eq_iff s t)

module _ (assertion : AssertionSpec) where
  misaddressed-Finds :
      Finds (misaddressed assertion) (λ event. IsObservation assertion event × IsMisaddressed event)
  misaddressed-Finds =
      Finds-skip (λ event. skips assertion event || not (addressed_elsewhere event)) cite
        (λ event kept.
          let (asked, elsewhere) = or-false _ _ kept in
          let (s, t, p, q, ne) = differ_sound _ _ (not-false _ elsewhere) in
          (
            IsObservation-not-skips assertion event asked,
            record { local = s; destination = t; observed_by = p; addressed_to = q; differs = ne },
          ))
        (λ event (o, m).
          rw
            (
              not-skips_of_IsObservation assertion event o,
              m.observed_by,
              m.addressed_to,
              differ_complete m.local m.destination m.differs,
            )
            refl)

  candidate-Finds : Finds (candidate assertion) (IsObservation assertion)
  candidate-Finds =
      Finds-skip (skips assertion) cite (IsObservation-not-skips assertion)
        (not-skips_of_IsObservation assertion)

  report_violation_iff :
      (cs vs : List Cited) → ((report assertion cs vs).status ≡ violation) ↔ (non_empty vs ≡ true)
  unfolding report
  report_violation_iff cs (v ∷ vs) = (λ h. refl, λ h. refl)
  report_violation_iff (c ∷ cs) [] = (λ h. cc, λ h. cc)
  report_violation_iff [] [] = (λ h. cc, λ h. cc)

  report_pass_iff :
      (cs vs : List Cited)
      → ((report assertion cs vs).status ≡ pass) ↔ ((non_empty cs ≡ true) × (non_empty vs ≡ false))
  unfolding report
  report_pass_iff cs (v ∷ vs) = (λ h. cc, λ h. cc)
  report_pass_iff (c ∷ cs) [] = (λ h. (refl, refl), λ h. refl)
  report_pass_iff [] [] = (λ h. cc, λ h. cc)

  -- The oracle reports a violation exactly when some event of the run is a token observation that
  -- the assertion asks about, and names another participant as its addressee than as its observer.
  -- It passes exactly when there is such an observation and none that names two participants so.
  pub recipient_binding_verdict :
      (scenario : Scenario) (evidence : EvidenceBundle)
      → DecidedBy
          (λ event. IsObservation assertion event × IsMisaddressed event)
          (IsObservation assertion)
          (recipient_binding scenario assertion evidence).status
          evidence.events
  unfolding recipient_binding
  recipient_binding_verdict scenario evidence =
      verdict_iff misaddressed-Finds candidate-Finds evidence.events (report_violation_iff _ _)
        (report_pass_iff _ _)

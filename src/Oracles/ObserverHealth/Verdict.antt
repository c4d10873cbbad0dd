-- ===== src/Oracles/ObserverHealth/Verdict.antt =====
-- When the oracle of src/ddsleuth/oracles/observer_health.py passes: it fails closed.
use ddsleuth.Evidence.{EvidenceBundle}
use ddsleuth.Json.{JsonValue, str}
use ddsleuth.Model.{AssertionSpec, EvidenceEvent, Scenario}
use ddsleuth.Model.EventKind.{observer_error, value}
use ddsleuth.Oracles.Base.{Finds-skip, event_sequence, pass, violation}
use ddsleuth.Oracles.ObserverHealth.{observer_health, of_kind, report, required_event_kind}
use ddsleuth.Prelude.{
  Finds, List, Occurs, String, [], arith, collect, empty-collect_iff, eq_iff, false, non_empty,
  non_empty-collect_iff, not, not-false, refl, some, true, ℤ, ◌==◌, ◌↔◌, ◌∷◌, ◌≡◌, ◌≢◌,
}
use ddsleuth.Semantics.{named_value}

module _ (kind : String) where
  abbrev pub IsOfKind : EvidenceEvent → Type 0
  IsOfKind event = event.kind ≡ kind

  of_kind-Finds : Finds (of_kind kind) IsOfKind
  of_kind-Finds =
      Finds-skip (λ event. not (event.kind == kind))
        (λ index event. event_sequence index event.sequence)
        (λ event h. (eq_iff event.kind kind).0 (not-false _ h))
        (λ event e. ground (arith, eq_iff event.kind kind))

module _ (assertion : AssertionSpec) (required_kind : String) where
  report_pass_iff :
      (failures observations : List ℤ)
      → ((report assertion required_kind failures observations).status ≡ pass)
        ↔ ((non_empty failures ≡ false) × (non_empty observations ≡ true))
  unfolding report
  report_pass_iff (n ∷ failures) observations = (λ h. cc, λ h. cc)
  report_pass_iff [] [] = (λ h. cc, λ h. cc)
  report_pass_iff [] (n ∷ observations) = (λ h. (refl, refl), λ h. refl)

  report_never_violation :
      (failures observations : List ℤ)
      → (report assertion required_kind failures observations).status ≢ violation
  unfolding report
  report_never_violation (n ∷ failures) observations h = cc
  report_never_violation [] [] h = cc
  report_never_violation [] (n ∷ observations) h = cc

named_value_text : (v : JsonValue) (s : String) → v ≡ str s → s ≢ "" → named_value v ≡ some s
named_value_text v s e filled = rw e (ground (arith, eq_iff s ""))

-- For an assertion that requires a kind of event, a text that is not empty, the oracle passes
-- exactly when no event of the run reports an observer error and an event of the required kind is
-- there. It never reports a violation: a broken or silent observer leaves the run undecided.
pub observer_health_verdict :
    (scenario : Scenario) (assertion : AssertionSpec) (evidence : EvidenceBundle)
    (required_kind : String)
    → required_event_kind assertion ≡ str required_kind
    → required_kind ≢ ""
    → let status = (observer_health scenario assertion evidence).status in
      ((status ≡ pass) ↔ (
        (¬ Occurs (IsOfKind (value observer_error)) evidence.events)
        × Occurs (IsOfKind required_kind) evidence.events))
      × (status ≢ violation)
unfolding observer_health
observer_health_verdict scenario assertion evidence required_kind required filled =
    let events = evidence.events in
    let failures = collect (of_kind (value observer_error)) 0 events in
    let observations = collect (of_kind required_kind) 0 events in
    let errors = empty-collect_iff (of_kind-Finds (value observer_error)) events in
    let seen = non_empty-collect_iff (of_kind-Finds required_kind) events in
    let on_pass = report_pass_iff assertion required_kind failures observations in
    rw (named_value_text (required_event_kind assertion) required_kind required filled) (
      (
        λ h. let (f, o) = on_pass.0 h in (errors.0 f, seen.0 o),
        λ (f, o). on_pass.1 (errors.1 f, seen.1 o),
      ),
      report_never_violation assertion required_kind failures observations,
    )

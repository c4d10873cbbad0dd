-- ===== src/Oracles/PolicyConsistency/Verdict.antt =====
-- When the oracle of src/ddsleuth/oracles/policy_consistency.py reports a violation, and when it
-- passes.
use ddsleuth.Json.{get}
use ddsleuth.Model.{is_kind, AssertionSpec, EvidenceEvent, Scenario}
use ddsleuth.Model.EventKind.{access_control_decision}
use ddsleuth.Oracles.Base.{
  Cited, DecidedBy, Selects-not-excludes, cite, event_sequence, excludes, neither_null_nor_str,
  not-excludes_of_Selects, pass, verdict_iff, violation,
}
use ddsleuth.Oracles.PolicyConsistency.{
  decision, considered, overgrant, policy_authorization_consistency, report,
}
use ddsleuth.Prelude.{
  Bool, Finds, List, [], and-true, non_empty, not, not-true, or-false, subst, sym, true, ℤ, ◌&&◌,
  ◌==◌, ◌||◌, ◌↔◌, ◌∷◌, Option, String, arith, eq_iff, false, if◌then◌else◌, none, not-false, refl,
  some, ◌≡◌,
}
use ddsleuth.Semantics.{is_permitted}
use ddsleuth.Evidence.{EvidenceBundle}
use ddsleuth.Oracles.PolicyConsistency.Decisions.{
  IsDecision, IsOvergrant, decided_complete, decided_sound,
}

module _ (assertion : AssertionSpec) (event : EvidenceEvent) where
  abbrev guarded : Bool
  guarded =
      not (is_kind event access_control_decision)
      || excludes (get assertion.parameters "actor") event.actor

  kept_of_decision :
      (skip : Bool) (o : Option (String × String)) (found : String × String)
      → (if skip then none else o) ≡ some found
      → (skip ≡ false) × (o ≡ some found)
  kept_of_decision true o found h = cc
  kept_of_decision false o found h = (refl, h)

  decision_sound :
      (found : String × String)
      → decision assertion event ≡ some found
      → (d : IsDecision assertion event) × ((d.operation, d.resource) ≡ found)
  decision_sound found h =
      let (kept, read) = kept_of_decision guarded _ found h in
      let (kind, actor) = or-false (not (is_kind event access_control_decision)) _ kept in
      let d =
        decided_sound assertion (get event.attributes "operation") (get event.attributes "resource")
          found read in
      (
        record {
          operation = found.0;
          resource = found.1;
          normalized = d.normalized;
          of_kind = (eq_iff event.kind "access_control.decision").0 (not-false _ kind);
          actor = Selects-not-excludes _ _ actor;
          of_operation = d.of_operation;
          on_resource = d.on_resource;
          known = d.known;
          selected = d.selected;
        },
        refl,
      )

  decision_complete :
      (d : IsDecision assertion event) → decision assertion event ≡ some (d.operation, d.resource)
  decision_complete d =
      let actor = not-excludes_of_Selects (get assertion.parameters "actor") event.actor d.actor in
      rw (d.of_kind, actor, d.of_operation, d.on_resource)
        (decided_complete assertion d.operation d.resource d.normalized d.known d.selected)

module _ (scenario : Scenario) (assertion : AssertionSpec) where
  considered-Finds : Finds (considered assertion) (IsDecision assertion)
  considered-Finds = record {
    sound = λ index event b h.
        by_cases event (event_sequence index event.sequence) b (decision assertion event) refl h;
    complete = λ index event d. (
      event_sequence index event.sequence,
      rw (decision_complete assertion event d, considered) refl,
    );
  }
    where
      by_cases :
          (event : EvidenceEvent) (n b : ℤ) (o : Option (String × String))
          → decision assertion event ≡ o
          → (elim o [ none ↦ none | some _ ↦ some n ]) ≡ some b
          → IsDecision assertion event
      by_cases event n b none e h = cc
      by_cases event n b (some found) e h = (decision_sound assertion event found e).0

  IsOvergrant-cases :
      (event : EvidenceEvent) (cited b : Cited) (o : Option (String × String))
      → decision assertion event ≡ o
      → (elim o [
        | none ↦ none
        | some (operation, resource) ↦
            if event.outcome == "allowed"
              && not (is_permitted scenario event.actor operation resource)
            then some cited
            else none
      ])
        ≡ some b
      → IsOvergrant scenario assertion event
  IsOvergrant-cases event cited b none e h = cc
  IsOvergrant-cases event cited b (some (operation, resource)) e h =
      let passed : (event.outcome == "allowed"
            && not (is_permitted scenario event.actor operation resource))
          ≡ true =
        ground arith in
      let (allowed, denied) = and-true _ _ passed in
      let (d, same) = decision_sound assertion event (operation, resource) e in
      record {
        of = d;
        allowed = (eq_iff event.outcome "allowed").0 allowed;
        not_permitted =
            subst (λ (p : String × String). is_permitted scenario event.actor p.0 p.1 ≡ false)
              (sym same) (not-true _ denied);
      }

  overgrant-Finds : Finds (overgrant scenario assertion) (IsOvergrant scenario assertion)
  overgrant-Finds = record {
    sound = λ index event b h.
        IsOvergrant-cases event (cite index event) b (decision assertion event) refl h;
    complete = λ index event o. (
      cite index event,
      rw (decision_complete assertion event o.of, overgrant) (rw (o.allowed, o.not_permitted) refl),
    );
  }

  report_violation_iff :
      (examined : List ℤ) (overgrants : List Cited)
      → ((report assertion examined overgrants).status ≡ violation) ↔ (non_empty overgrants ≡ true)
  unfolding report
  report_violation_iff examined (o ∷ overgrants) = (λ h. refl, λ h. refl)
  report_violation_iff (n ∷ examined) [] = (λ h. cc, λ h. cc)
  report_violation_iff [] [] = (λ h. cc, λ h. cc)

  report_pass_iff :
      (examined : List ℤ) (overgrants : List Cited)
      → ((report assertion examined overgrants).status ≡ pass)
        ↔ ((non_empty examined ≡ true) × (non_empty overgrants ≡ false))
  unfolding report
  report_pass_iff examined (o ∷ overgrants) = (λ h. cc, λ h. cc)
  report_pass_iff (n ∷ examined) [] = (λ h. (refl, refl), λ h. refl)
  report_pass_iff [] [] = (λ h. cc, λ h. cc)

  -- For an assertion whose actor and operation are texts or absent, the oracle reports a violation
  -- exactly when some access decision that it asks about allowed an operation on a resource that
  -- the declared policy does not permit to the event's actor. It passes exactly when there is such
  -- a decision and none of them grants too much.
  pub policy_authorization_consistency_verdict :
      (evidence : EvidenceBundle)
      → neither_null_nor_str (get assertion.parameters "actor") ≡ false
      → neither_null_nor_str (get assertion.parameters "operation") ≡ false
      → DecidedBy
          (IsOvergrant scenario assertion)
          (IsDecision assertion)
          (policy_authorization_consistency scenario assertion evidence).status
          evidence.events
  unfolding policy_authorization_consistency
  policy_authorization_consistency_verdict evidence actor operation =
      rw (actor, operation)
        (verdict_iff overgrant-Finds considered-Finds evidence.events (report_violation_iff _ _)
          (report_pass_iff _ _))

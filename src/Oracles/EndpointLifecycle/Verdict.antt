-- ===== src/Oracles/EndpointLifecycle/Verdict.antt =====
-- When the oracle of src/ddsleuth/oracles/endpoint_lifecycle.py reports a violation, and when it
-- passes.
use ddsleuth.Model.{Scenario, AssertionSpec, EvidenceEvent}
use ddsleuth.Oracles.Base.{OracleStatus, not_applicable, event_sequence, pass, violation}
use ddsleuth.Oracles.EndpointLifecycle.{
  boundary, declared, endpoint_key_lifecycle, judge, Filters, common, report,
}
use ddsleuth.Oracles.EndpointLifecycle.Boundaries.{
  OnlyBoundary-single, single_of_OnlyBoundary, OnlyBoundary,
}
use ddsleuth.Oracles.EndpointLifecycle.Keys.{
  SeenAfter, SeenAfter_of_mem, SeenBefore, SeenBefore_of_mem, mem_of_SeenAfter, mem_of_SeenBefore,
  observations,
}
use ddsleuth.Prelude.{
  collect, false≢true, some, subst, sym, ◌∙◌, Bool-cases, List, String, [], false,
  first_of_non_empty, inl, inr, non_empty, non_empty_of_mem, refl, true, ℕ, ◌↔◌, ◌∷◌, ◌≡◌,
}
use ddsleuth.Evidence.{EvidenceBundle}
use ddsleuth.Json.{get, get_or, str}
use ddsleuth.Semantics.{named_value}
use ddsleuth.Oracles.EndpointLifecycle.Sides.{
  Renewed, Survives, compare_iff, earlier, in_common, later, of_common,
}

module _ (assertion : AssertionSpec) (filters : Filters) (events : List EvidenceEvent) where
  report_iff :
      (at : ℕ) (event : EvidenceEvent)
      → let status = (report assertion filters at event (observations filters events)).status in
        let early = earlier filters events at in
        let late = later filters events at in
        let both = (non_empty early ≡ true) × (non_empty late ≡ true) in
        ((status ≡ violation) ↔ (both × (non_empty (common early late) ≡ true)))
        × ((status ≡ pass) ↔ (both × (non_empty (common early late) ≡ false)))
  unfolding report
  report_iff at event =
      let early = earlier filters events at in
      let late = later filters events at in
      elim (Bool-cases (non_empty early)) [
        | inr e ↦ rw e ((λ h. cc, λ h. cc), (λ h. cc, λ h. cc))
        | inl e ↦ elim (Bool-cases (non_empty late)) [
          | inr f ↦ rw (e, f) ((λ h. cc, λ h. cc), (λ h. cc, λ h. cc))
          | inl f ↦
              let (on_violation, on_pass) =
                compare_iff assertion filters (event_sequence at event.sequence)
                  (observations filters events) early late (common early late) in
              rw (e, f)
                (
                  (λ h. ((refl, refl), on_violation.0 h), λ h. on_violation.1 h.1),
                  (λ h. ((refl, refl), on_pass.0 h), λ h. on_pass.1 h.1),
                )
        ]
      ]

  abbrev found : List (ℕ × EvidenceEvent)
  found = collect (boundary filters.actor) 0 events

  same_boundary :
      (at : ℕ) (event : EvidenceEvent) (other : ℕ)
      → found ≡ (at, event) ∷ []
      → OnlyBoundary filters.actor events other
      → other ≡ at
  same_boundary at event other h b =
      let single = OnlyBoundary-single filters.actor events at event h in
      single.alone other b.event b.there b.is_boundary

  abbrev Judged : OracleStatus → Type 0
  Judged status =
      ((status ≡ violation) ↔ Survives filters events) × ((status ≡ pass) ↔ Renewed filters events)

  no_boundary :
      (status : OracleStatus)
      → status ≡ not_applicable
      → ((at : ℕ) → ¬ OnlyBoundary filters.actor events at)
      → Judged status
  no_boundary status e n = (
    (λ h. cc, λ s. absurd (n s.at s.boundary_there)),
    (λ h. cc, λ r. absurd (n r.at r.boundary_there)),
  )

  Judged-single :
      (at : ℕ) (event : EvidenceEvent)
      → found ≡ (at, event) ∷ []
      → Judged (report assertion filters at event (observations filters events)).status
  Judged-single at event h =
      let (on_violation, on_pass) = report_iff at event in
      let b = OnlyBoundary-single filters.actor events at event h in
      (
        (
          λ v.
              let (fingerprint, early, late) = of_common filters events at (on_violation.0 v).1 in
              record {
                at = at;
                boundary_there = b;
                fingerprint = fingerprint;
                before = early;
                after = late;
              },
          λ s.
              let same = same_boundary at event s.at h s.boundary_there in
              let early = subst (λ n. SeenBefore filters events n s.fingerprint) same s.before in
              let late = subst (λ n. SeenAfter filters events n s.fingerprint) same s.after in
              on_violation.1 (
                (
                  non_empty_of_mem (mem_of_SeenBefore filters events at s.fingerprint early),
                  non_empty_of_mem (mem_of_SeenAfter filters events at s.fingerprint late),
                ),
                in_common filters events at s.fingerprint early late,
              ),
        ),
        (
          λ p.
              let ((some_early, some_late), none_common) = on_pass.0 p in
              let (one, m) = first_of_non_empty (earlier filters events at) some_early in
              let (other, n) = first_of_non_empty (later filters events at) some_late in
              record {
                at = at;
                boundary_there = b;
                one = one;
                one_before = SeenBefore_of_mem filters events at one m;
                other = other;
                other_after = SeenAfter_of_mem filters events at other n;
                none_survives = λ fingerprint early late.
                    false≢true
                      (sym none_common ∙ in_common filters events at fingerprint early late);
              },
          λ r.
              let same = same_boundary at event r.at h r.boundary_there in
              let early = subst (λ n. SeenBefore filters events n r.one) same r.one_before in
              let late = subst (λ n. SeenAfter filters events n r.other) same r.other_after in
              on_pass.1 (
                (
                  non_empty_of_mem (mem_of_SeenBefore filters events at r.one early),
                  non_empty_of_mem (mem_of_SeenAfter filters events at r.other late),
                ),
                elim (Bool-cases
                    (non_empty (common (earlier filters events at) (later filters events at)))) [
                      | inl e ↦
                          let (fingerprint, x, y) = of_common filters events at e in
                          absurd (
                            r.none_survives fingerprint
                              (subst (λ n. SeenBefore filters events n fingerprint) (sym same) x)
                              (subst (λ n. SeenAfter filters events n fingerprint) (sym same) y))
                      | inr e ↦ e
                    ],
              ),
        ),
      )

  judge_iff :
      (boundaries : List (ℕ × EvidenceEvent))
      → found ≡ boundaries
      → Judged (judge assertion filters events boundaries).status
  unfolding judge
  judge_iff [] h =
      no_boundary not_applicable refl
        (λ at b. let single = single_of_OnlyBoundary filters.actor events at b in cc)
  judge_iff ((at, event) ∷ []) h = Judged-single at event h
  judge_iff (x ∷ y ∷ boundaries) h =
      no_boundary not_applicable refl
        (λ at b. let single = single_of_OnlyBoundary filters.actor events at b in cc)

-- For an assertion that names a participant of the scenario and whose three filters are texts that
-- are not empty, where an absent one has its default, the oracle reports a violation exactly when
-- the run has one destruction of an endpoint of the actor, and some selected key was seen before it
-- and after it. It passes exactly when there is one such destruction, keys were seen on both sides,
-- and no key on both.
pub endpoint_key_lifecycle_verdict :
    (scenario : Scenario) (assertion : AssertionSpec) (evidence : EvidenceBundle)
    (actor token_class endpoint_class observation_phase : String)
    → declared scenario (get assertion.parameters "actor") ≡ some actor
    → named_value (get_or assertion.parameters "token_class" (str "datawriter")) ≡ some token_class
    → named_value (get_or assertion.parameters "endpoint_class" (str "user")) ≡ some endpoint_class
    → named_value (get_or assertion.parameters "observation_phase" (str "generated"))
      ≡ some observation_phase
    → let status = (endpoint_key_lifecycle scenario assertion evidence).status in
      let filters : Filters = record {
        actor = actor;
        token_class = token_class;
        endpoint_class = endpoint_class;
        observation_phase = observation_phase;
      } in
      ((status ≡ violation) ↔ Survives filters evidence.events)
      × ((status ≡ pass) ↔ Renewed filters evidence.events)
unfolding endpoint_key_lifecycle
endpoint_key_lifecycle_verdict scenario assertion evidence actor token_class endpoint_class
      observation_phase named class endpoint phase =
    rw (named, endpoint_key_lifecycle)
      (rw (class, endpoint, phase)
        (judge_iff assertion
          (record {
            actor = actor;
            token_class = token_class;
            endpoint_class = endpoint_class;
            observation_phase = observation_phase;
          })
          evidence.events (collect (boundary actor) 0 evidence.events) refl))

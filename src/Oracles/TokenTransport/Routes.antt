-- ===== src/Oracles/TokenTransport/Routes.antt =====
-- Routes are compared by their five parts, and what src/ddsleuth/oracles/token_transport.py reports
-- by what is misrouted, orphaned and unmatched.
use ddsleuth.Model.{AssertionSpec}
use ddsleuth.Oracles.TokenTransport.{
  name, complete, is_misrouted, is_orphaned, misrouting, report, Observation, Route, on_route_of,
  same_route,
}
use ddsleuth.Prelude.{
  [], if◌then◌else◌, ◌∷◌, Bool-cases, arith, false, inl, inr, keep, non_empty, not, or-false, ◌&&◌,
  ◌||◌, ◌↔◌, ◌≢◌, Bool, List, Memᴰ, and-true, any_of_mem, eq_iff, eq_refl, mem_of_any, refl, sym,
  true, ◌==◌, ◌≡◌,
}
use ddsleuth.Oracles.Base.{undecided, OracleStatus, pass, violation}

same_route_sound : (a b : Route) → same_route a b ≡ true → a ≡ b
unfolding same_route
same_route_sound a b h =
    let (f, more) = and-true (a.fingerprint == b.fingerprint) _ h in
    let (c, more) = and-true (a.token_class == b.token_class) _ more in
    let (p, more) = and-true (a.destination_participant == b.destination_participant) _ more in
    let (e, s) = and-true (a.destination_endpoint == b.destination_endpoint) _ more in
    λ i. record {
      fingerprint = (eq_iff a.fingerprint b.fingerprint).0 f i;
      token_class = (eq_iff a.token_class b.token_class).0 c i;
      destination_participant = (eq_iff a.destination_participant b.destination_participant).0 p i;
      destination_endpoint = (eq_iff a.destination_endpoint b.destination_endpoint).0 e i;
      source_endpoint = (eq_iff a.source_endpoint b.source_endpoint).0 s i;
    }

same_route_refl : (a : Route) → same_route a a ≡ true
unfolding same_route
same_route_refl a = rw eq_refl (rw eq_refl (rw eq_refl (rw eq_refl (rw eq_refl refl))))

module _ (others : List Observation) (item : Observation) where
  abbrev pub OnRoute : Type 0
  OnRoute = (other : Observation) × Memᴰ other others × (other.route ≡ item.route)

  pub OnRoute_of_test : on_route_of others item ≡ true → OnRoute
  unfolding on_route_of
  OnRoute_of_test h =
      let (other, m, same) =
        mem_of_any (λ (o : Observation). same_route item.route o.route) others h in
      (other, m, sym (same_route_sound item.route other.route same))

  pub test_of_OnRoute : OnRoute → on_route_of others item ≡ true
  unfolding on_route_of
  test_of_OnRoute (other, m, same) =
      any_of_mem (λ (o : Observation). same_route item.route o.route) others m
        (rw same (same_route_refl item.route))

module _ (assertion : AssertionSpec) (require_all : Bool) (gens recs : List Observation) where
  abbrev pub orphaned : Bool
  orphaned = non_empty (keep (is_orphaned gens) recs)

  abbrev pub unmatched : Bool
  unmatched = non_empty (keep (λ item. not (on_route_of recs item)) gens)

  complete_status :
      ((complete assertion require_all gens recs).status ≢ violation)
      × (((complete assertion require_all gens recs).status ≡ pass)
          ↔ ((orphaned ≡ false) × ((require_all && unmatched) ≡ false)))
  unfolding complete
  complete_status = elim (Bool-cases (orphaned || require_all && unmatched)) [
    | inl e ↦ rw e (
      λ h. cc,
      (
        λ h. cc,
        λ (o, u).
            let clash : (orphaned || require_all && unmatched) ≡ false = ground (arith, o, u) in cc,
      ),
    )
    | inr e ↦ rw e (λ h. cc, (λ h. or-false orphaned (require_all && unmatched) e, λ h. refl))
  ]

  -- The status, by whether there are observations and by the list of the misrouted ones.
  abbrev chosen : Bool → List Observation → OracleStatus
  chosen present misrouted =
      (if not present
        then undecided assertion name "No routed run-local key observations were available" []
        else elim misrouted [
          | [] ↦ complete assertion require_all gens recs
          | item ∷ items ↦ misrouting assertion gens item items
        ]).status

  chosen_iff :
      (present : Bool) (misrouted : List Observation)
      → ((chosen present misrouted ≡ violation) ↔ ((present ≡ true) × (non_empty misrouted ≡ true)))
        × ((chosen present misrouted ≡ pass) ↔ (
            (present ≡ true)
            × (non_empty misrouted ≡ false)
            × (orphaned ≡ false)
            × ((require_all && unmatched) ≡ false)))
  unfolding misrouting
  chosen_iff false misrouted = ((λ h. cc, λ h. cc), (λ h. cc, λ h. cc))
  chosen_iff true (x ∷ misrouted) = ((λ h. (refl, refl), λ h. refl), (λ h. cc, λ h. cc))
  chosen_iff true [] =
      let (no_violation, on_pass) = complete_status in
      (
        (λ h. absurd (no_violation h), λ h. cc),
        (
          λ h.
              let (none_orphaned, none_open) = on_pass.0 h in
              (refl, refl, none_orphaned, none_open),
          λ (_, _, none_orphaned, none_open). on_pass.1 (none_orphaned, none_open),
        ),
      )

  pub report_verdict :
      let status = (report assertion require_all gens recs).status in
      let present = non_empty gens || non_empty recs in
      let misrouted = non_empty (keep (is_misrouted gens) recs) in
      ((status ≡ violation) ↔ ((present ≡ true) × (misrouted ≡ true)))
      × ((status ≡ pass) ↔ (
          (present ≡ true)
          × (misrouted ≡ false)
          × (orphaned ≡ false)
          × ((require_all && unmatched) ≡ false)))
  unfolding report
  report_verdict =
      let same : (not (non_empty gens) && not (non_empty recs))
          ≡ not (non_empty gens || non_empty recs) =
        ground arith in
      rw same (chosen_iff (non_empty gens || non_empty recs) (keep (is_misrouted gens) recs))

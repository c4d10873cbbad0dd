-- ===== src/Oracles/TokenTransport/Verdict.antt =====
-- When the oracle of src/ddsleuth/oracles/token_transport.py reports a violation, and when it
-- passes.
use ddsleuth.Json.{bool, get, get_or, JsonValue}
use ddsleuth.Model.{Scenario, AssertionSpec, EvidenceEvent}
use ddsleuth.Oracles.TokenTransport.{
  crypto_token_transport_consistency, selected, generated, received, is_misrouted, is_orphaned,
  report, Observation, Route, on_route_of,
}
use ddsleuth.Oracles.TokenTransport.Observations.{
  generated_of_mem, mem_of_generated, mem_of_received, received_of_mem,
}
use ddsleuth.Prelude.{
  fails_of_none, first_of_non_empty, non_empty_of_mem, none_of_fails, not-false, or-true,
  true_of_or, subst, Bool-cases, arith, false, inl, inr, keep, non_empty, not, ◌&&◌, ◌||◌, ◌↔◌,
  Bool, List, Memᴰ, refl, true, ◌≡◌,
}
use ddsleuth.Oracles.Base.{neither_null_nor_str, pass, violation}
use ddsleuth.Evidence.{EvidenceBundle}
use ddsleuth.Oracles.TokenTransport.Routes.{
  OnRoute_of_test, orphaned, report_verdict, test_of_OnRoute, unmatched,
}
use ddsleuth.Oracles.TokenTransport.Transport.{
  Consistent, Misrouted, Misrouted-any, OnRoute-received, WasGenerated, WasGenerated-iff,
  WasReceived, WasReceived-iff, any-Misrouted,
}

module _ (assertion : AssertionSpec) (require_all : Bool) (token_class : JsonValue)
    (events : List EvidenceEvent) where
  abbrev all_generated : List Observation
  all_generated = generated token_class events

  abbrev all_received : List Observation
  all_received = received token_class events

  abbrev some_open : Bool
  some_open = require_all && unmatched assertion require_all all_generated all_received

  Consistent-report :
      (non_empty all_generated || non_empty all_received) ≡ true
      → non_empty (keep (is_misrouted all_generated) all_received) ≡ false
      → orphaned assertion require_all all_generated all_received ≡ false
      → some_open ≡ false
      → Consistent token_class events require_all
  Consistent-report present none_misrouted none_orphaned none_open =
      let generated_route = λ (route : Route) (w : WasReceived token_class events route).
        let (item, m, at) = mem_of_received token_class events route w in
        subst (WasGenerated token_class events) at (
          (WasGenerated-iff token_class events item).0 (
            OnRoute_of_test all_generated item
              (OnRoute-received token_class events item m none_misrouted none_orphaned))) in
      let received_route =
        λ (all_required : require_all ≡ true) (route : Route)
            (w : WasGenerated token_class events route).
          let (item, m, at) = mem_of_generated token_class events route w in
          let none_unmatched : unmatched assertion require_all all_generated all_received ≡ false =
            ground (arith, none_open, all_required) in
          subst (WasReceived token_class events) at (
            (WasReceived-iff token_class events item).0 (
              OnRoute_of_test all_received item (
                not-false _ (
                  fails_of_none (λ o. not (on_route_of all_received o)) all_generated none_unmatched
                    m)))) in
      elim (or-true (non_empty all_generated) (non_empty all_received) present) [
        | inl e ↦
            let (o, m) = first_of_non_empty all_generated e in
            record {
              some_route = o.route;
              observed = inl (generated_of_mem token_class events m);
              received_generated = generated_route;
              generated_received = received_route;
            }
        | inr e ↦
            let (o, m) = first_of_non_empty all_received e in
            record {
              some_route = o.route;
              observed = inr (received_of_mem token_class events m);
              received_generated = generated_route;
              generated_received = received_route;
            }
      ]

  on_generated_route :
      Consistent token_class events require_all
      → (item : Observation) → Memᴰ item all_received
      → on_route_of all_generated item ≡ true
  on_generated_route c item m = test_of_OnRoute all_generated item (
      (WasGenerated-iff token_class events item).1
        (c.received_generated item.route (received_of_mem token_class events m)))

  present_of_Consistent :
      Consistent token_class events require_all
      → (non_empty all_generated || non_empty all_received) ≡ true
  present_of_Consistent c = elim c.observed [
    | inl w ↦
        let (o, m, _) = mem_of_generated token_class events c.some_route w in
        rw (non_empty_of_mem m) refl
    | inr w ↦
        let (o, m, _) = mem_of_received token_class events c.some_route w in
        true_of_or (non_empty all_generated) (non_empty all_received) (inr (non_empty_of_mem m))
  ]

  none_open_of_Consistent : Consistent token_class events require_all → some_open ≡ false
  none_open_of_Consistent c = elim (Bool-cases require_all) [
    | inl all_required ↦
        let nothing : unmatched assertion require_all all_generated all_received ≡ false =
          none_of_fails (λ o. not (on_route_of all_received o)) all_generated
            (λ item m.
              let on = test_of_OnRoute all_received item (
                (WasReceived-iff token_class events item).1 (
                  c.generated_received all_required item.route
                    (generated_of_mem token_class events m))) in
              rw on refl) in
        ground (arith, nothing)
    | inr e ↦ ground (arith, e)
  ]

  report_iff :
      let status = (report assertion require_all all_generated all_received).status in
      ((status ≡ violation) ↔ Misrouted token_class events)
      × ((status ≡ pass) ↔ Consistent token_class events require_all)
  report_iff =
      let (on_violation, on_pass) =
        report_verdict assertion require_all all_generated all_received in
      (
        (
          λ h. Misrouted-any token_class events (on_violation.0 h).1,
          λ x.
              let (item, m, _) = mem_of_received token_class events x.route x.arrived in
              on_violation.1 (
                true_of_or (non_empty all_generated) (non_empty all_received)
                    (inr (non_empty_of_mem m)),
                any-Misrouted token_class events x,
              ),
        ),
        (
          λ h.
              let (present, none_misrouted, none_orphaned, none_open) = on_pass.0 h in
              Consistent-report present none_misrouted none_orphaned none_open,
          λ c. on_pass.1 (
            present_of_Consistent c,
            none_of_fails (is_misrouted all_generated) all_received
                (λ item m. rw (on_generated_route c item m) refl),
            none_of_fails (is_orphaned all_generated) all_received
                (λ item m. rw (on_generated_route c item m) refl),
            none_open_of_Consistent c,
          ),
        ),
      )

-- For an assertion whose token class is a text or absent and whose `require_all_generated` is a
-- boolean, or True where it is absent, the oracle reports a violation exactly when a selected token
-- was received by a route that it was not generated for, while its key was generated for another.
-- It passes exactly when tokens were observed, each route of a received token is one that it was
-- generated for, and, if all are required, each route of a generated token one that it came by.
pub crypto_token_transport_consistency_verdict :
    (scenario : Scenario) (assertion : AssertionSpec) (evidence : EvidenceBundle)
    (require_all : Bool)
    → neither_null_nor_str (get assertion.parameters "token_class") ≡ false
    → get_or assertion.parameters "require_all_generated" (bool true) ≡ bool require_all
    → let status = (crypto_token_transport_consistency scenario assertion evidence).status in
      let token_class = get assertion.parameters "token_class" in
      ((status ≡ violation) ↔ Misrouted token_class evidence.events)
      × ((status ≡ pass) ↔ Consistent token_class evidence.events require_all)
unfolding crypto_token_transport_consistency
crypto_token_transport_consistency_verdict scenario assertion evidence require_all selected
      required =
    rw (selected, required)
      (report_iff assertion require_all (get assertion.parameters "token_class") evidence.events)

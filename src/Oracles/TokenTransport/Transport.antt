-- ===== src/Oracles/TokenTransport/Transport.antt =====
-- Which observations of src/ddsleuth/oracles/token_transport.py are misrouted.
use ddsleuth.Json.{JsonValue}
use ddsleuth.Model.{EvidenceEvent}
use ddsleuth.Oracles.TokenTransport.{
  generated, origins, received, is_misrouted, is_orphaned, Observation, Route, on_route_of,
}
use ddsleuth.Oracles.TokenTransport.Observations.{
  generated_of_mem, mem_of_generated, mem_of_received, received_of_mem,
}
use ddsleuth.Oracles.TokenTransport.Reading.{IsGenerated, IsReceived}
use ddsleuth.Prelude.{
  fails_of_none, ap, false≢true, non_empty-keep, not-true, subst, ◌∙◌, Bool-cases, arith, false,
  inl, inr, keep, non_empty, not, ◌↔◌, Bool, List, Memᴰ, Occurs, and-true, any_of_mem, eq_iff,
  mem_of_any, refl, sym, true, ◌==◌, ◌≡◌, ◌⊎◌,
}
use ddsleuth.Oracles.TokenTransport.Routes.{OnRoute, OnRoute_of_test, test_of_OnRoute}

module _ (token_class : JsonValue) (events : List EvidenceEvent) where
  -- A selected token was generated for the route in the run.
  abbrev pub WasGenerated : Route → Type 0
  WasGenerated route = Occurs (IsGenerated token_class route) events

  abbrev pub WasReceived : Route → Type 0
  WasReceived route = Occurs (IsReceived token_class route) events

  -- A token arrived by a route that it was not generated for, while its key was generated for one.
  pub record Misrouted : Type 0 where
    pub route : Route
    pub arrived : WasReceived route
    pub not_generated : ¬ WasGenerated route
    pub origin : Route
    pub generated_there : WasGenerated origin
    pub same_key : origin.fingerprint ≡ route.fingerprint

  -- Tokens were observed, each one received was generated for its route, and if all generated ones
  -- are required, each one generated was received by its route.
  pub record Consistent (require_all : Bool) : Type 0 where
    pub some_route : Route
    pub observed : WasGenerated some_route ⊎ WasReceived some_route
    pub received_generated : (route : Route) → WasReceived route → WasGenerated route
    pub generated_received :
        require_all ≡ true → (route : Route) → WasGenerated route → WasReceived route

module _ (token_class : JsonValue) (events : List EvidenceEvent) where
  abbrev gens : List Observation
  gens = generated token_class events

  abbrev recs : List Observation
  recs = received token_class events

  pub WasGenerated-iff :
      (item : Observation) → OnRoute gens item ↔ WasGenerated token_class events item.route
  WasGenerated-iff item = (
    λ (other, m, same).
        subst (WasGenerated token_class events) same (generated_of_mem token_class events m),
    λ g. mem_of_generated token_class events item.route g,
  )

  pub WasReceived-iff :
      (item : Observation) → OnRoute recs item ↔ WasReceived token_class events item.route
  WasReceived-iff item = (
    λ (other, m, same).
        subst (WasReceived token_class events) same (received_of_mem token_class events m),
    λ g. mem_of_received token_class events item.route g,
  )

  pub Misrouted-any :
      non_empty (keep (is_misrouted gens) recs) ≡ true → Misrouted token_class events
  unfolding origins
  Misrouted-any h =
      let (item, m, test) =
        mem_of_any (is_misrouted gens) recs (sym (non_empty-keep (is_misrouted gens) recs) ∙ h) in
      let (off, known) = and-true (not (on_route_of gens item)) _ test in
      let (other, there, same) =
        mem_of_any (λ (o : Observation). o.route.fingerprint == item.route.fingerprint) gens
          (sym (non_empty-keep _ gens) ∙ known) in
      record {
        route = item.route;
        arrived = received_of_mem token_class events m;
        not_generated = λ g.
            false≢true
              (sym (not-true _ off) ∙ test_of_OnRoute gens item ((WasGenerated-iff item).1 g));
        origin = other.route;
        generated_there = generated_of_mem token_class events there;
        same_key = (eq_iff other.route.fingerprint item.route.fingerprint).0 same;
      }

  off_route :
      (item : Observation)
      → ¬ WasGenerated token_class events item.route
      → on_route_of gens item ≡ false
  off_route item n = elim (Bool-cases (on_route_of gens item)) [
    | inl e ↦ absurd (n ((WasGenerated-iff item).0 (OnRoute_of_test gens item e)))
    | inr e ↦ e
  ]

  pub any-Misrouted :
      Misrouted token_class events → non_empty (keep (is_misrouted gens) recs) ≡ true
  unfolding origins
  any-Misrouted x =
      let (item, m, at) = mem_of_received token_class events x.route x.arrived in
      let (other, there, from) = mem_of_generated token_class events x.origin x.generated_there in
      let off =
        off_route item (λ g. x.not_generated (subst (WasGenerated token_class events) at g)) in
      let same : other.route.fingerprint ≡ item.route.fingerprint =
        ap (λ (r : Route). r.fingerprint) from
        ∙ x.same_key
        ∙ sym (ap (λ (r : Route). r.fingerprint) at) in
      let known : non_empty (origins gens item) ≡ true =
        non_empty-keep _ gens
        ∙ any_of_mem (λ (o : Observation). o.route.fingerprint == item.route.fingerprint) gens there
            ((eq_iff _ _).1 same) in
      non_empty-keep (is_misrouted gens) recs
      ∙ any_of_mem (is_misrouted gens) recs m (rw (off, known) refl)

  pub OnRoute-received :
      (item : Observation)
      → Memᴰ item recs
      → non_empty (keep (is_misrouted gens) recs) ≡ false
      → non_empty (keep (is_orphaned gens) recs) ≡ false
      → on_route_of gens item ≡ true
  OnRoute-received item m none_misrouted none_orphaned =
      let not_misrouted : is_misrouted gens item ≡ false =
        fails_of_none (is_misrouted gens) recs none_misrouted m in
      let not_orphaned : is_orphaned gens item ≡ false =
        fails_of_none (is_orphaned gens) recs none_orphaned m in
      ground (arith, not_misrouted, not_orphaned)

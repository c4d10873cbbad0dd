-- ===== src/Oracles/TokenTransport/Observations.antt =====
-- The observations that src/ddsleuth/oracles/token_transport.py gathers, and the routes they are on.
use ddsleuth.Json.{JsonValue}
use ddsleuth.Model.{EvidenceEvent}
use ddsleuth.Oracles.Base.{Selects-not-excludes, not-excludes_of_Selects, event_sequence}
use ddsleuth.Oracles.TokenTransport.{
  generated, is_generated, observation_of, received, selected, Observation, Route,
}
use ddsleuth.Prelude.{
  Bool-cases, List, Memᴰ, Occurs, and-true, arith, collect_complete, collect_sound, eq_iff,
  false≢true, inl, inr, not-true, refl, subst, sym, ◌+◌, ◌∙◌, String, false, not, some, ℕ, ◌==◌,
  ◌≡◌,
}
use ddsleuth.Oracles.TokenTransport.Reading.{
  IsGenerated, IsReceived, Observes, observation_complete, observation_sound, selected_sound,
}

module _ (token_class : JsonValue) (index : ℕ) (event : EvidenceEvent) where
  abbrev made : String → String → Route → Observation
  made phase local route = record {
    sequence = event_sequence index event.sequence;
    actor = event.actor;
    phase = phase;
    local_participant = local;
    route = route;
  }

  IsGenerated-sound :
      (o : Observation)
      → selected token_class is_generated index event ≡ some o
      → IsGenerated token_class o.route event
  IsGenerated-sound o h =
      let (seen, class, asked) =
        selected_sound index event token_class is_generated (observation_of index event) o refl h in
      let (observes, in_phase) = observation_sound index event o seen in
      let (phase, leaves) = and-true (o.phase == "generated") _ asked in
      record {
        local = o.local_participant;
        observes =
            subst (λ p. Observes p o.local_participant o.route event)
              ((eq_iff o.phase "generated").0 phase) observes;
        selected_class = Selects-not-excludes token_class o.route.token_class class;
        leaves = λ same. false≢true (
            sym (not-true _ leaves)
            ∙ (eq_iff o.local_participant o.route.destination_participant).1 same);
      }

  IsReceived-sound :
      (o : Observation)
      → selected token_class (λ x. not (x.phase == "generated")) index event ≡ some o
      → IsReceived token_class o.route event
  IsReceived-sound o h =
      let (seen, class, asked) =
        selected_sound index event token_class (λ x. not (x.phase == "generated"))
          (observation_of index event) o refl h in
      let (observes, in_phase) = observation_sound index event o seen in
      let phase : o.phase ≡ "received" =
        ground (arith, in_phase, asked, eq_iff o.phase "received") in
      record {
        local = o.local_participant;
        observes = subst (λ p. Observes p o.local_participant o.route event) phase observes;
        selected_class = Selects-not-excludes token_class o.route.token_class class;
      }

  generated_complete :
      (route : Route)
      → IsGenerated token_class route event
      → (o : Observation) × (selected token_class is_generated index event ≡ some o)
        × (o.route ≡ route)
  generated_complete route g =
      let seen = observation_complete index event "generated" g.local route g.observes refl in
      let class = not-excludes_of_Selects token_class route.token_class g.selected_class in
      let leaves : (g.local == route.destination_participant) ≡ false =
        elim (Bool-cases (g.local == route.destination_participant)) [
          | inl e ↦ absurd (g.leaves ((eq_iff g.local route.destination_participant).0 e))
          | inr e ↦ e
        ] in
      (made "generated" g.local route, rw (seen, selected) (rw (class, leaves) refl), refl)

  received_complete :
      (route : Route)
      → IsReceived token_class route event
      → (o : Observation) × (selected token_class (λ x. not (x.phase == "generated")) index event
          ≡ some o)
        × (o.route ≡ route)
  received_complete route g =
      let seen = observation_complete index event "received" g.local route g.observes refl in
      let class = not-excludes_of_Selects token_class route.token_class g.selected_class in
      (made "received" g.local route, rw (seen, selected) (rw class refl), refl)

module _ (token_class : JsonValue) (events : List EvidenceEvent) where
  pub generated_of_mem :
      {o : Observation}
      → Memᴰ o (generated token_class events)
      → Occurs (IsGenerated token_class o.route) events
  generated_of_mem {o} m =
      let f = collect_sound (selected token_class is_generated) 0 events m in
      (f.place, f.item, f.at, IsGenerated-sound token_class (0 + f.place) f.item o f.found)

  pub received_of_mem :
      {o : Observation}
      → Memᴰ o (received token_class events)
      → Occurs (IsReceived token_class o.route) events
  received_of_mem {o} m =
      let f = collect_sound (selected token_class (λ x. not (x.phase == "generated"))) 0 events m in
      (f.place, f.item, f.at, IsReceived-sound token_class (0 + f.place) f.item o f.found)

  pub mem_of_generated :
      (route : Route)
      → Occurs (IsGenerated token_class route) events
      → (o : Observation) × Memᴰ o (generated token_class events) × (o.route ≡ route)
  mem_of_generated route (place, event, at, g) =
      let (o, found, same) = generated_complete token_class (0 + place) event route g in
      (o, collect_complete (selected token_class is_generated) 0 events place at found, same)

  pub mem_of_received :
      (route : Route)
      → Occurs (IsReceived token_class route) events
      → (o : Observation) × Memᴰ o (received token_class events) × (o.route ≡ route)
  mem_of_received route (place, event, at, g) =
      let (o, found, same) = received_complete token_class (0 + place) event route g in
      (
        o,
        collect_complete (selected token_class (λ x. not (x.phase == "generated"))) 0 events place
            at found,
        same,
      )

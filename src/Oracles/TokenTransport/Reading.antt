-- ===== src/Oracles/TokenTransport/Reading.antt =====
-- What `_observation` of src/ddsleuth/oracles/token_transport.py reads of an event.
use ddsleuth.Fingerprints.{is_fingerprint}
use ddsleuth.Json.{JsonValue, get, str}
use ddsleuth.Model.{EvidenceEvent, is_kind}
use ddsleuth.Model.EventKind.{key_material_observed, value}
use ddsleuth.Oracles.Base.{excludes, Selects, event_sequence}
use ddsleuth.Oracles.TokenTransport.{
  observation_of, read_attributes, selected, Observation, Route, seven_texts,
}
use ddsleuth.Prelude.{
  eq_iff, not-false, or-false, passed_of_some, refl, subst, ◌∙◌, Bool, Option, String, ap, false,
  if◌then◌else◌, none, not, some, true, ℕ, ◌==◌, ◌||◌, ◌≡◌, ◌≢◌,
}

-- A key token was observed on the route, in the phase and by the participant.
pub record Observes (phase local : String) (route : Route) (event : EvidenceEvent) : Type 0 where
  pub of_kind : event.kind ≡ value key_material_observed
  pub outcome : event.outcome ≡ "observed"
  pub in_phase : get event.attributes "observation_phase" ≡ str phase
  pub key : get event.attributes "key_fingerprint" ≡ str route.fingerprint
  pub token_class : get event.attributes "token_class" ≡ str route.token_class
  pub by : get event.attributes "local_participant_guid" ≡ str local
  pub participant :
      get event.attributes "destination_participant_guid" ≡ str route.destination_participant
  pub endpoint : get event.attributes "destination_endpoint_guid" ≡ str route.destination_endpoint
  pub source : get event.attributes "source_endpoint_guid" ≡ str route.source_endpoint
  pub form : is_fingerprint route.fingerprint ≡ true

-- A selected token was generated for the route, by another participant than its destination.
pub record IsGenerated (token_class : JsonValue) (route : Route) (event : EvidenceEvent)
    : Type 0 where
  pub local : String
  pub observes : Observes "generated" local route event
  pub selected_class : Selects token_class route.token_class
  pub leaves : local ≢ route.destination_participant

-- A selected token was received on the route.
pub record IsReceived (token_class : JsonValue) (route : Route) (event : EvidenceEvent)
    : Type 0 where
  pub local : String
  pub observes : Observes "received" local route event
  pub selected_class : Selects token_class route.token_class

-- The seven attributes that were read, as texts.
record AreTexts (p f t l d e s : JsonValue) (phase local : String) (route : Route) : Type 0 where
  phase_text : p ≡ str phase
  key_text : f ≡ str route.fingerprint
  class_text : t ≡ str route.token_class
  local_text : l ≡ str local
  participant_text : d ≡ str route.destination_participant
  endpoint_text : e ≡ str route.destination_endpoint
  source_text : s ≡ str route.source_endpoint

seven_texts_sound :
    (p f t l d e s : JsonValue) (phase local : String) (route : Route)
    → seven_texts p f t l d e s ≡ some (phase, local, route)
    → AreTexts p f t l d e s phase local route
seven_texts_sound (str p) (str f) (str t) (str l) (str d) (str e) (str s) phase local route h =
    let made : Route = record {
      fingerprint = f;
      token_class = t;
      destination_participant = d;
      destination_endpoint = e;
      source_endpoint = s;
    } in
    let same : (p, l, made) ≡ (phase, local, route) = cc in
    record {
      phase_text = ap (λ (x : String × String × Route). str x.0) same;
      key_text = ap (λ (x : String × String × Route). str x.2.fingerprint) same;
      class_text = ap (λ (x : String × String × Route). str x.2.token_class) same;
      local_text = ap (λ (x : String × String × Route). str x.1) same;
      participant_text = ap (λ (x : String × String × Route). str x.2.destination_participant) same;
      endpoint_text = ap (λ (x : String × String × Route). str x.2.destination_endpoint) same;
      source_text = ap (λ (x : String × String × Route). str x.2.source_endpoint) same;
    }
seven_texts_sound _ _ _ _ _ _ _ phase local route h = cc

module _ (index : ℕ) (event : EvidenceEvent) where
  abbrev skipped : Bool
  skipped = not (is_kind event key_material_observed) || not (event.outcome == "observed")

  observed_after :
      (skip : Bool) (read : Option (String × String × Route)) (o : Observation)
      → (if skip then none else elim read [
        | none ↦ none
        | some (phase, local, route) ↦
            if not (phase == "generated" || phase == "received")
              || not (is_fingerprint route.fingerprint)
            then none
            else some (record {
              sequence = event_sequence index event.sequence;
              actor = event.actor;
              phase = phase;
              local_participant = local;
              route = route;
            })
      ])
        ≡ some o
      → (skip ≡ false)
        × (read ≡ some (o.phase, o.local_participant, o.route))
        × ((o.phase == "generated" || o.phase == "received") ≡ true)
        × (is_fingerprint o.route.fingerprint ≡ true)
  observed_after true read o h = cc
  observed_after false none o h = cc
  observed_after false (some (phase, local, route)) o h =
      let (kept, same) =
        passed_of_some
          (not (phase == "generated" || phase == "received")
            || not (is_fingerprint route.fingerprint))
          (record {
            sequence = event_sequence index event.sequence;
            actor = event.actor;
            phase = phase;
            local_participant = local;
            route = route;
          })
          o h in
      let (in_phase, form) =
        or-false (not (phase == "generated" || phase == "received"))
          (not (is_fingerprint route.fingerprint)) kept in
      (
        refl,
        ap (λ (x : Observation). some (x.phase, x.local_participant, x.route)) same,
        subst (λ (x : Observation). (x.phase == "generated" || x.phase == "received") ≡ true) same
            (not-false _ in_phase),
        subst (λ (x : Observation). is_fingerprint x.route.fingerprint ≡ true) same
            (not-false _ form),
      )

  pub observation_sound :
      (o : Observation)
      → observation_of index event ≡ some o
      → Observes o.phase o.local_participant o.route event
        × ((o.phase == "generated" || o.phase == "received") ≡ true)
  unfolding observation_of read_attributes
  observation_sound o h =
      let (kept, read, in_phase, form) = observed_after skipped (read_attributes event) o h in
      let (kind, outcome) = or-false (not (is_kind event key_material_observed)) _ kept in
      let texts = seven_texts_sound _ _ _ _ _ _ _ o.phase o.local_participant o.route read in
      (
        record {
          of_kind = (eq_iff event.kind "key_material.observed").0 (not-false _ kind);
          outcome = (eq_iff event.outcome "observed").0 (not-false _ outcome);
          in_phase = texts.phase_text;
          key = texts.key_text;
          token_class = texts.class_text;
          by = texts.local_text;
          participant = texts.participant_text;
          endpoint = texts.endpoint_text;
          source = texts.source_text;
          form = form;
        },
        in_phase,
      )

  pub observation_complete :
      (phase local : String) (route : Route)
      → Observes phase local route event
      → (phase == "generated" || phase == "received") ≡ true
      → observation_of index event
        ≡ some (record {
          sequence = event_sequence index event.sequence;
          actor = event.actor;
          phase = phase;
          local_participant = local;
          route = route;
        })
  unfolding observation_of read_attributes
  observation_complete phase local route b in_phase =
      rw
        (
          b.of_kind, b.outcome, b.in_phase, b.key, b.token_class, b.by, b.participant, b.endpoint,
          b.source,
        )
        (rw (in_phase, b.form) refl)

  -- What `selected` let through.
  pub selected_sound :
      (token_class : JsonValue) (wanted : Observation → Bool) (read : Option Observation)
      (o : Observation)
      → observation_of index event ≡ read
      → selected token_class wanted index event ≡ some o
      → (observation_of index event ≡ some o)
        × (excludes token_class o.route.token_class ≡ false)
        × (wanted o ≡ true)
  selected_sound token_class wanted none o e h =
      let held : none ≡ some o = rw (e, selected) at h in cc
  selected_sound token_class wanted (some x) o e h =
      let (kept, same) =
        passed_of_some (excludes token_class x.route.token_class || not (wanted x)) x o
          (rw (e, selected) at h) in
      let (class, asked) = or-false (excludes token_class x.route.token_class) _ kept in
      (
        e ∙ ap some same,
        subst (λ (y : Observation). excludes token_class y.route.token_class ≡ false) same class,
        subst (λ (y : Observation). wanted y ≡ true) same (not-false _ asked),
      )

-- ===== src/Oracles/EndpointLifecycle/Keys.antt =====
-- The keys that src/ddsleuth/oracles/endpoint_lifecycle.py observes before and after a position.
use ddsleuth.Fingerprints.{is_fingerprint}
use ddsleuth.Json.{JsonValue, equals_str, get, str}
use ddsleuth.Model.{EvidenceEvent, is_kind}
use ddsleuth.Model.EventKind.{key_material_observed, value}
use ddsleuth.Oracles.Base.{equals_str_eq, event_sequence}
use ddsleuth.Oracles.EndpointLifecycle.{
  Filters, Observation, fingerprint_of, key_of, observation, post, pre, skips,
}
use ddsleuth.Prelude.{
  Bool, Bool-cases, List, Memᴰ, Option, String, ap, collect, collect_complete, collect_sound,
  eq_iff, eq_refl, false, get_elem?, if◌then◌else◌, inl, inr, keep, keep_of_mem, ltb, ltb→lt,
  lt→ltb, map_mem, mem_of_keep, mem_of_map, none, not, not-false, or-false, refl, some, subst, sym,
  true, zero-add, ℕ, ◌+◌, ◌<◌, ◌==◌, ◌∙◌, ◌≡◌,
}

-- A key that the filters select, of the actor's endpoints.
pub record IsKey (filters : Filters) (fingerprint : String) (event : EvidenceEvent) : Type 0 where
  pub by : event.actor ≡ filters.actor
  pub of_kind : event.kind ≡ value key_material_observed
  pub token_class : get event.attributes "token_class" ≡ str filters.token_class
  pub endpoint : get event.attributes "endpoint_class" ≡ str filters.endpoint_class
  pub phase : get event.attributes "observation_phase" ≡ str filters.observation_phase
  pub key : get event.attributes "key_fingerprint" ≡ str fingerprint
  pub form : is_fingerprint fingerprint ≡ true

-- The key was seen at the position.
pub record SeenAt (filters : Filters) (events : List EvidenceEvent) (fingerprint : String)
    (place : ℕ) : Type 0 where
  pub event : EvidenceEvent
  pub there : get_elem? events place ≡ some event
  pub is_key : IsKey filters fingerprint event

pub record SeenBefore (filters : Filters) (events : List EvidenceEvent) (at : ℕ)
    (fingerprint : String) : Type 0 where
  pub place : ℕ
  pub seen : SeenAt filters events fingerprint place
  pub before : place < at

pub record SeenAfter (filters : Filters) (events : List EvidenceEvent) (at : ℕ)
    (fingerprint : String) : Type 0 where
  pub place : ℕ
  pub seen : SeenAt filters events fingerprint place
  pub after : at < place

fingerprint_of_sound :
    (v : JsonValue) (fingerprint : String)
    → fingerprint_of v ≡ some fingerprint
    → (v ≡ str fingerprint) × (is_fingerprint fingerprint ≡ true)
fingerprint_of_sound (str s) fingerprint h = elim (Bool-cases (is_fingerprint s)) [
  | inl form ↦
      let held : some s ≡ some fingerprint = rw form at h in
      let same : s ≡ fingerprint = cc in (ap str same, rw same at form)
  | inr bad ↦ let held : none ≡ some fingerprint = rw bad at h in cc
]
fingerprint_of_sound _ fingerprint h = cc

module _ (filters : Filters) (event : EvidenceEvent) where
  kept_key :
      (skip : Bool) (o : Option String) (found : String)
      → (if skip then none else o) ≡ some found
      → (skip ≡ false) × (o ≡ some found)
  kept_key true o found h = cc
  kept_key false o found h = (refl, h)

  key_of_sound :
      (fingerprint : String)
      → key_of filters event ≡ some fingerprint
      → IsKey filters fingerprint event
  unfolding key_of
  key_of_sound fingerprint h =
      let (kept, read) = kept_key (skips filters event) _ fingerprint h in
      let (by, more) = or-false (not (event.actor == filters.actor)) _ kept in
      let (kind, more) = or-false (not (is_kind event key_material_observed)) _ more in
      let (class, more) =
        or-false (not (equals_str (get event.attributes "token_class") filters.token_class)) _
          more in
      let (endpoint, phase) =
        or-false (not (equals_str (get event.attributes "endpoint_class") filters.endpoint_class)) _
          more in
      let (key, form) = fingerprint_of_sound _ fingerprint read in
      record {
        by = (eq_iff event.actor filters.actor).0 (not-false _ by);
        of_kind = (eq_iff event.kind "key_material.observed").0 (not-false _ kind);
        token_class = equals_str_eq _ _ (not-false _ class);
        endpoint = equals_str_eq _ _ (not-false _ endpoint);
        phase = equals_str_eq _ _ (not-false _ phase);
        key = key;
        form = form;
      }

  key_of_complete :
      (fingerprint : String)
      → IsKey filters fingerprint event
      → key_of filters event ≡ some fingerprint
  unfolding key_of
  key_of_complete fingerprint k =
      let not_skipped : skips filters event ≡ false =
        rw (k.by, k.of_kind, k.token_class, k.endpoint, k.phase) (simp eq_refl) in
      rw not_skipped (rw k.key (rw k.form refl))

module _ (filters : Filters) (events : List EvidenceEvent) where
  abbrev pub observations : List Observation
  observations = collect (observation filters) 0 events

  observation_cases :
      (index : ℕ) (event : EvidenceEvent) (o : Option String) (x : Observation)
      → key_of filters event ≡ o
      → observation filters index event ≡ some x
      → (key_of filters event ≡ some x.fingerprint) × (x.index ≡ index)
  observation_cases index event none x e h =
      let held : none ≡ some x = rw (e, observation) at h in cc
  observation_cases index event (some fingerprint) x e h =
      let made : Observation = record {
        fingerprint = fingerprint;
        index = index;
        sequence = event_sequence index event.sequence;
      } in
      let held : some made ≡ some x = rw (e, observation) at h in
      let same : made ≡ x = cc in
      (
        e ∙ ap (λ (y : Observation). some y.fingerprint) same,
        sym (ap (λ (y : Observation). y.index) same),
      )

  pub seen_of_mem :
      (x : Observation) → Memᴰ x observations → SeenAt filters events x.fingerprint x.index
  seen_of_mem x m =
      let f = collect_sound (observation filters) 0 events m in
      let (key, at) =
        observation_cases (0 + f.place) f.item (key_of filters f.item) x refl f.found in
      let place : f.place ≡ x.index = sym (at ∙ zero-add f.place) in
      record {
        event = f.item;
        there = subst (λ n. get_elem? events n ≡ some f.item) place f.at;
        is_key = key_of_sound filters f.item x.fingerprint key;
      }

  pub mem_of_seen :
      (fingerprint : String) (place : ℕ)
      → SeenAt filters events fingerprint place
      → (x : Observation) × Memᴰ x observations × (x.fingerprint ≡ fingerprint) × (x.index ≡ place)
  mem_of_seen fingerprint place s =
      let found = key_of_complete filters s.event fingerprint s.is_key in
      (
        record {
          fingerprint = fingerprint;
          index = 0 + place;
          sequence = event_sequence (0 + place) s.event.sequence;
        },
        collect_complete (observation filters) 0 events place s.there
            (rw (found, observation) refl),
        refl,
        zero-add place,
      )

  module _ (at : ℕ) where
    abbrev fingerprint_at : Observation → String
    fingerprint_at o = o.fingerprint

    pub SeenBefore_of_mem :
        (fingerprint : String)
        → Memᴰ fingerprint (pre at observations)
        → SeenBefore filters events at fingerprint
    SeenBefore_of_mem fingerprint m =
        let (x, kept, same) =
          mem_of_map fingerprint_at (keep (λ (o : Observation). ltb o.index at) observations) m in
        let (there, early) = mem_of_keep (λ (o : Observation). ltb o.index at) observations kept in
        record {
          place = x.index;
          seen = subst (λ f. SeenAt filters events f x.index) (sym same) (seen_of_mem x there);
          before = ltb→lt x.index at early;
        }

    pub mem_of_SeenBefore :
        (fingerprint : String)
        → SeenBefore filters events at fingerprint
        → Memᴰ fingerprint (pre at observations)
    mem_of_SeenBefore fingerprint s =
        let (x, m, same, index) = mem_of_seen fingerprint s.place s.seen in
        let early : ltb x.index at ≡ true = rw index (lt→ltb s.place at s.before) in
        subst (λ f. Memᴰ f (pre at observations)) same
          (map_mem fingerprint_at (keep (λ (o : Observation). ltb o.index at) observations)
            (keep_of_mem (λ (o : Observation). ltb o.index at) observations m early))

    pub SeenAfter_of_mem :
        (fingerprint : String)
        → Memᴰ fingerprint (post at observations)
        → SeenAfter filters events at fingerprint
    SeenAfter_of_mem fingerprint m =
        let (x, kept, same) =
          mem_of_map fingerprint_at (keep (λ (o : Observation). ltb at o.index) observations) m in
        let (there, late) = mem_of_keep (λ (o : Observation). ltb at o.index) observations kept in
        record {
          place = x.index;
          seen = subst (λ f. SeenAt filters events f x.index) (sym same) (seen_of_mem x there);
          after = ltb→lt at x.index late;
        }

    pub mem_of_SeenAfter :
        (fingerprint : String)
        → SeenAfter filters events at fingerprint
        → Memᴰ fingerprint (post at observations)
    mem_of_SeenAfter fingerprint s =
        let (x, m, same, index) = mem_of_seen fingerprint s.place s.seen in
        let late : ltb at x.index ≡ true = rw index (lt→ltb at s.place s.after) in
        subst (λ f. Memᴰ f (post at observations)) same
          (map_mem fingerprint_at (keep (λ (o : Observation). ltb at o.index) observations)
            (keep_of_mem (λ (o : Observation). ltb at o.index) observations m late))

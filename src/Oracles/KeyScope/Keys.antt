-- ===== src/Oracles/KeyScope/Keys.antt =====
-- The keys that src/ddsleuth/oracles/key_scope.py considers.
use ddsleuth.Fingerprints.{is_fingerprint}
use ddsleuth.Json.{JsonValue, get, str}
use ddsleuth.Model.{EvidenceEvent, is_kind}
use ddsleuth.Model.EventKind.{key_material_observed, value}
use ddsleuth.Oracles.Base.{
  SelectsValue, SelectsValue-not-excludes_value, excludes_value, not-excludes_value_of_SelectsValue,
}
use ddsleuth.Oracles.KeyScope.{Filters, keyed, scoped_key, skips}
use ddsleuth.Prelude.{
  Bool, Bool-cases, List, Occurs, Option, String, ap, eq_iff, false, if◌then◌else◌, inl, inr, none,
  not, not-false, or-false, refl, some, true, ◌==◌, ◌≡◌, ◌≢◌,
}

-- An observed key that the filters select: its fingerprint, and the scope that it was seen in.
pub record IsScopedKey (filters : Filters) (fingerprint scope : String) (event : EvidenceEvent)
    : Type 0 where
  pub of_kind : event.kind ≡ value key_material_observed
  pub outcome : event.outcome ≡ "observed"
  pub key_class : SelectsValue filters.key_class (get event.attributes "key_class")
  pub phase : SelectsValue filters.observation_phase (get event.attributes "observation_phase")
  pub endpoint : SelectsValue filters.endpoint_class (get event.attributes "endpoint_class")
  pub semantics :
      SelectsValue filters.material_semantics (get event.attributes "material_semantics")
  pub key : get event.attributes "key_fingerprint" ≡ str fingerprint
  pub form : is_fingerprint fingerprint ≡ true
  pub in_scope : get event.attributes filters.scope_attribute ≡ str scope

-- Some key was seen in the run.
pub record SomeKey (filters : Filters) (events : List EvidenceEvent) : Type 0 where
  pub fingerprint : String
  pub scope : String
  pub seen : Occurs (IsScopedKey filters fingerprint scope) events

-- One key was seen in two scopes.
pub record CrossesScopes (filters : Filters) (events : List EvidenceEvent) : Type 0 where
  pub fingerprint : String
  pub one : String
  pub other : String
  pub in_one : Occurs (IsScopedKey filters fingerprint one) events
  pub in_other : Occurs (IsScopedKey filters fingerprint other) events
  pub apart : one ≢ other

keyed_sound :
    (k s : JsonValue) (fingerprint scope : String)
    → keyed k s ≡ some (fingerprint, scope)
    → (k ≡ str fingerprint) × (s ≡ str scope) × (is_fingerprint fingerprint ≡ true)
keyed_sound (str k) (str s) fingerprint scope h = elim (Bool-cases (is_fingerprint k)) [
  | inl form ↦
      let held : some (k, s) ≡ some (fingerprint, scope) = rw form at h in
      let same : (k, s) ≡ (fingerprint, scope) = cc in
      let key : k ≡ fingerprint = ap (λ (p : String × String). p.0) same in
      (ap str key, ap (λ (p : String × String). str p.1) same, rw key at form)
  | inr bad ↦ let held : none ≡ some (fingerprint, scope) = rw bad at h in cc
]
keyed_sound _ _ fingerprint scope h = cc

module _ (filters : Filters) (event : EvidenceEvent) where
  kept_key :
      (skip : Bool) (o : Option (String × String)) (found : String × String)
      → (if skip then none else o) ≡ some found
      → (skip ≡ false) × (o ≡ some found)
  kept_key true o found h = cc
  kept_key false o found h = (refl, h)

  pub scoped_key_sound :
      (fingerprint scope : String)
      → scoped_key filters event ≡ some (fingerprint, scope)
      → IsScopedKey filters fingerprint scope event
  unfolding scoped_key
  scoped_key_sound fingerprint scope h =
      let (kept, read) = kept_key (skips filters event) _ (fingerprint, scope) h in
      let (kind, more) = or-false (not (is_kind event key_material_observed)) _ kept in
      let (outcome, more) = or-false (not (event.outcome == "observed")) _ more in
      let (key_class, more) = or-false (excludes_value filters.key_class _) _ more in
      let (phase, more) = or-false (excludes_value filters.observation_phase _) _ more in
      let (endpoint, semantics) = or-false (excludes_value filters.endpoint_class _) _ more in
      let (key, in_scope, form) = keyed_sound _ _ fingerprint scope read in
      record {
        of_kind = (eq_iff event.kind "key_material.observed").0 (not-false _ kind);
        outcome = (eq_iff event.outcome "observed").0 (not-false _ outcome);
        key_class = SelectsValue-not-excludes_value _ _ key_class;
        phase = SelectsValue-not-excludes_value _ _ phase;
        endpoint = SelectsValue-not-excludes_value _ _ endpoint;
        semantics = SelectsValue-not-excludes_value _ _ semantics;
        key = key;
        form = form;
        in_scope = in_scope;
      }

  pub scoped_key_complete :
      (fingerprint scope : String)
      → IsScopedKey filters fingerprint scope event
      → scoped_key filters event ≡ some (fingerprint, scope)
  unfolding scoped_key
  scoped_key_complete fingerprint scope k =
      let key_class = not-excludes_value_of_SelectsValue filters.key_class _ k.key_class in
      let phase = not-excludes_value_of_SelectsValue filters.observation_phase _ k.phase in
      let endpoint = not-excludes_value_of_SelectsValue filters.endpoint_class _ k.endpoint in
      let semantics = not-excludes_value_of_SelectsValue filters.material_semantics _ k.semantics in
      rw (k.of_kind, k.outcome, key_class, phase, endpoint, semantics, k.key, k.in_scope)
        (rw k.form refl)

-- ===== src/Oracles/KeyScope/Verdict.antt =====
-- When the oracle of src/ddsleuth/oracles/key_scope.py reports a violation, and when it passes.
use ddsleuth.Json.{Dict, get_or, get, str}
use ddsleuth.Model.{AssertionSpec, Scenario, EvidenceEvent}
use ddsleuth.Oracles.Base.{neither_null_nor_str, pass, violation, event_sequence}
use ddsleuth.Oracles.KeyScope.{
  collides, filters_of, group, judge, key_scope_separation, report, with_scope, Filters,
  Observation, observation, scoped_key,
}
use ddsleuth.Prelude.{
  [], false≢true, first_of_non_empty, keep, non_empty, non_empty-keep, non_empty_of_mem, sym, ◌↔◌,
  ◌∙◌, ◌∷◌, Bool-cases, List, Memᴰ, Occurs, Option, String, ap, collect, collect_complete,
  collect_sound, false, inl, inr, none, refl, some, true, ℕ, ◌+◌, ◌≡◌,
}
use ddsleuth.Evidence.{EvidenceBundle}
use ddsleuth.Oracles.KeyScope.Groups.{Clash, any-collides_iff}
use ddsleuth.Oracles.KeyScope.Keys.{
  CrossesScopes, IsScopedKey, SomeKey, scoped_key_complete, scoped_key_sound,
}

module _ (filters : Filters) (events : List EvidenceEvent) where
  abbrev considered : List (String × Observation)
  considered = collect (observation filters) 0 events

  observation_cases :
      (index : ℕ) (event : EvidenceEvent) (o : Option (String × String)) (fingerprint : String)
      (x : Observation)
      → scoped_key filters event ≡ o
      → observation filters index event ≡ some (fingerprint, x)
      → scoped_key filters event ≡ some (fingerprint, x.scope)
  observation_cases index event none fingerprint x e h =
      let held : none ≡ some (fingerprint, x) = rw (e, observation) at h in cc
  observation_cases index event (some (key, scope)) fingerprint x e h =
      let made : Observation = record {
        sequence = event_sequence index event.sequence;
        scope = scope;
        actor = event.actor;
      } in
      let held : some (key, made) ≡ some (fingerprint, x) = rw (e, observation) at h in
      let same : (key, made) ≡ (fingerprint, x) = cc in
      e ∙ ap (λ (p : String × Observation). some (p.0, p.1.scope)) same

  seen_of_mem :
      (fingerprint : String) (x : Observation)
      → Memᴰ (fingerprint, x) considered
      → Occurs (IsScopedKey filters fingerprint x.scope) events
  seen_of_mem fingerprint x m =
      let f = collect_sound (observation filters) 0 events m in
      (
        f.place,
        f.item,
        f.at,
        scoped_key_sound filters f.item fingerprint x.scope (
            observation_cases (0 + f.place) f.item (scoped_key filters f.item) fingerprint x refl
              f.found),
      )

  mem_of_seen :
      (fingerprint scope : String)
      → Occurs (IsScopedKey filters fingerprint scope) events
      → (x : Observation) × Memᴰ (fingerprint, x) considered × (x.scope ≡ scope)
  mem_of_seen fingerprint scope (place, event, at, k) =
      let found = scoped_key_complete filters event fingerprint scope k in
      (
        record {
          sequence = event_sequence (0 + place) event.sequence;
          scope = scope;
          actor = event.actor;
        },
        collect_complete (observation filters) 0 events place at (rw (found, observation) refl),
        refl,
      )

  CrossesScopes-Clash : Clash considered → CrossesScopes filters events
  CrossesScopes-Clash c = record {
    fingerprint = c.key;
    one = c.one.scope;
    other = c.other.scope;
    in_one = seen_of_mem c.key c.one c.one_there;
    in_other = seen_of_mem c.key c.other c.other_there;
    apart = c.apart;
  }

  Clash-CrossesScopes : CrossesScopes filters events → Clash considered
  Clash-CrossesScopes c =
      let (x, x_there, x_scope) = mem_of_seen c.fingerprint c.one c.in_one in
      let (y, y_there, y_scope) = mem_of_seen c.fingerprint c.other c.in_other in
      record {
        key = c.fingerprint;
        one = x;
        other = y;
        one_there = x_there;
        other_there = y_there;
        apart = λ same. c.apart (sym x_scope ∙ same ∙ y_scope);
      }

  collisions_iff :
      (non_empty (keep collides (group [] considered)) ≡ true) ↔ CrossesScopes filters events
  collisions_iff = rw (non_empty-keep collides (group [] considered)) (
    λ h. CrossesScopes-Clash ((any-collides_iff considered).0 h),
    λ c. (any-collides_iff considered).1 (Clash-CrossesScopes c),
  )

  considered_iff : (non_empty considered ≡ true) ↔ SomeKey filters events
  considered_iff = (
    λ h.
        let ((k, x), m) = first_of_non_empty considered h in
        record { fingerprint = k; scope = x.scope; seen = seen_of_mem k x m },
    λ s. let (x, m, same) = mem_of_seen s.fingerprint s.scope s.seen in non_empty_of_mem m,
  )

report_status :
    (assertion : AssertionSpec) (filters : Filters) (seen : List (String × Observation))
    (collisions : Dict (List Observation))
    → let status = (report assertion filters seen collisions).status in
      ((status ≡ violation) ↔ (non_empty collisions ≡ true))
      × ((status ≡ pass) ↔ ((non_empty seen ≡ true) × (non_empty collisions ≡ false)))
unfolding report
report_status assertion filters seen (c ∷ collisions) = ((λ h. refl, λ h. refl), (λ h. cc, λ h. cc))
report_status assertion filters (o ∷ seen) [] = ((λ h. cc, λ h. cc), (λ h. (refl, refl), λ h. refl))
report_status assertion filters [] [] = ((λ h. cc, λ h. cc), (λ h. cc, λ h. cc))

judge_verdict :
    (assertion : AssertionSpec) (filters : Filters) (events : List EvidenceEvent)
    → let status = (judge assertion filters events).status in
      ((status ≡ violation) ↔ CrossesScopes filters events)
      × ((status ≡ pass) ↔ (SomeKey filters events × (¬ CrossesScopes filters events)))
unfolding judge
judge_verdict assertion filters events =
    let seen = considered filters events in
    let collisions = keep collides (group [] seen) in
    let (on_violation, on_pass) = report_status assertion filters seen collisions in
    let crosses = collisions_iff filters events in
    let some_key = considered_iff filters events in
    (
      (λ h. crosses.0 (on_violation.0 h), λ c. on_violation.1 (crosses.1 c)),
      (
        λ h.
            let (some_seen, none_cross) = on_pass.0 h in
            (some_key.0 some_seen, λ c. false≢true (sym none_cross ∙ crosses.1 c)),
        λ (k, none_cross). on_pass.1 (
          some_key.1 k,
          elim (Bool-cases (non_empty collisions)) [
            | inl found ↦ absurd (none_cross (crosses.0 found))
            | inr nothing ↦ nothing
          ],
        ),
      ),
    )

-- For an assertion whose scope attribute is a text and whose other filters are texts or absent,
-- the oracle reports a violation exactly when one key fingerprint of the selected observations was
-- seen in two different scopes. It passes exactly when a key was seen and none was in two scopes.
pub key_scope_separation_verdict :
    (scenario : Scenario) (assertion : AssertionSpec) (evidence : EvidenceBundle)
    (scope_attribute : String)
    → get_or assertion.parameters "scope_attribute" (str "scope_id") ≡ str scope_attribute
    → neither_null_nor_str (get assertion.parameters "observation_phase") ≡ false
    → neither_null_nor_str (get assertion.parameters "endpoint_class") ≡ false
    → neither_null_nor_str (get assertion.parameters "material_semantics") ≡ false
    → let status = (key_scope_separation scenario assertion evidence).status in
      let filters = filters_of assertion scope_attribute in
      ((status ≡ violation) ↔ CrossesScopes filters evidence.events)
      × ((status ≡ pass)
          ↔ (SomeKey filters evidence.events × (¬ CrossesScopes filters evidence.events)))
unfolding key_scope_separation with_scope
key_scope_separation_verdict scenario assertion evidence scope_attribute named phase endpoint
      semantics =
    rw (named, phase, endpoint, semantics)
      (judge_verdict assertion (filters_of assertion scope_attribute) evidence.events)

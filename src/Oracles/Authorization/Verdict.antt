-- ===== src/Oracles/Authorization/Verdict.antt =====
-- When the oracle of src/ddsleuth/oracles/authorization.py reports a violation, and when it passes.
use ddsleuth.Evidence.{EvidenceBundle}
use ddsleuth.Json.{bool, get, str}
use ddsleuth.Model.{AssertionSpec, EvidenceEvent, Scenario}
use ddsleuth.Model.EventKind.{access_control_decision, key_material_observed, value}
use ddsleuth.Oracles.Authorization.{denial}
use ddsleuth.Prelude.{
  Bool, List, Occurs, String, collect, false, non_empty, none, not, true, ◌||◌, ◌≡◌, ◌⊎◌,
}
use ddsleuth.Semantics.{actor_has_any_permission}

-- The middleware denied the actor access.
pub record IsDenied (actor : String) (event : EvidenceEvent) : Type 0 where
  pub by : event.actor ≡ actor
  pub decision : event.kind ≡ value access_control_decision
  pub outcome : event.outcome ≡ "denied"

-- A received token of a user endpoint, with the key's fingerprint.
pub record IsUserToken (event : EvidenceEvent) : Type 0 where
  pub fingerprint : String
  pub phase : get event.attributes "observation_phase" ≡ str "received"
  pub endpoint : get event.attributes "endpoint_class" ≡ str "user"
  pub key : get event.attributes "key_fingerprint" ≡ str fingerprint

-- The actor was seen with key material: a sender's key, its own specific key, or a user token.
pub record ObtainsKey (actor : String) (event : EvidenceEvent) : Type 0 where
  pub by : event.actor ≡ actor
  pub material : event.kind ≡ value key_material_observed
  pub outcome : event.outcome ≡ "observed"
  pub carries :
      (get event.attributes "sender_key_present" ≡ bool true)
      ⊎ ((get event.attributes "receiver_specific_key_present" ≡ bool true) ⊎ IsUserToken event)

-- The run shows that the actor was denied access, or the declared policy lets it subscribe to no
-- topic.
abbrev pub LacksAuthority : Scenario → String → List EvidenceEvent → Type 0
LacksAuthority scenario actor events =
    Occurs (IsDenied actor) events
    ⊎ (actor_has_any_permission scenario actor "subscribe" none ≡ false)

module _ (scenario : Scenario) (assertion : AssertionSpec) (evidence : EvidenceBundle)
    (actor : String) (named : get assertion.parameters "actor" ≡ str actor) where
  lacks : Bool
  lacks =
      non_empty (collect (denial actor) 0 evidence.events)
      || not (actor_has_any_permission scenario actor "subscribe" none)

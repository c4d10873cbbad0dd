-- ===== src/Oracles/Lifecycle/Verdict.antt =====
-- When the oracle of src/ddsleuth/oracles/lifecycle.py reports a violation, and when it passes.
use ddsleuth.Json.{Dict, JsonValue, get}
use ddsleuth.Model.{AssertionSpec, Scenario, EvidenceEvent}
use ddsleuth.Oracles.Base.{neither_null_nor_str}
use ddsleuth.Oracles.Lifecycle.{Use, revocations_from, stale_use}
use ddsleuth.Oracles.Lifecycle.Revocations.{LastRevokedAt}
use ddsleuth.Prelude.{[], collect, false, List, String, ℤ, ◌≡◌}
use ddsleuth.Evidence.{EvidenceBundle}

module _ (scenario : Scenario) (assertion : AssertionSpec) (evidence : EvidenceBundle)
    (selected : neither_null_nor_str (get assertion.parameters "actor") ≡ false) where
  abbrev selected_actor : JsonValue
  selected_actor = get assertion.parameters "actor"

  abbrev last_revocations : Dict ℤ
  last_revocations = revocations_from selected_actor 0 evidence.events []

  abbrev uses : List Use
  uses = collect (stale_use last_revocations) 0 evidence.events

-- Some authority was revoked in the run, last at the number.
pub record SomeRevoked (actor : JsonValue) (events : List EvidenceEvent) : Type 0 where
  pub authority_id : String
  pub number : ℤ
  pub last : LastRevokedAt actor authority_id 0 events number

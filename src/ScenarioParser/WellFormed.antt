-- ===== src/ScenarioParser/WellFormed.antt =====
-- What `parse_scenario` of src/ddsleuth/scenario.py promises of the scenario that it returns, in
-- terms of the scenario alone.
use ddsleuth.Json.{Dict, Float}
use ddsleuth.Json.Numbers.{lt_float, zero_float}
use ddsleuth.Model.{
  AssertionSpec, EventBarrier, ExecutionSpec, ParticipantSpec, RoleAction, RoleCommand, Scenario,
}
use ddsleuth.Prelude.{
  All, List, Memᴰ, Option, String, [], false, map, non_empty, none, pos, some, true, ℕ, ◌↔◌, ◌∷◌,
  ◌≡◌, ◌≤◌,
}
use ddsleuth.ScenarioParser.Participants.{keys}
use ddsleuth.ScenarioParser.Values.{breaks_line, is_actor_name, is_blank}

-- No text stands twice.
abbrev pub AllDistinct : List String → Type 0
AllDistinct [] = Unit
AllDistinct (x ∷ xs) = (¬ Memᴰ x xs) × AllDistinct xs

-- No time is before the one that stands ahead of it; the first is not before the given one.
abbrev pub InOrder : Float → List RoleAction → Type 0
InOrder previous [] = Unit
InOrder previous (first ∷ actions) =
    (lt_float first.at_ms previous ≡ false) × InOrder first.at_ms actions

pub record IsAction (action : RoleAction) : Type 0 where
  pub identified : is_blank action.action_id ≡ false
  pub operates : is_blank action.operation ≡ false
  pub not_before_start : lt_float action.at_ms zero_float ≡ false
  pub on_one_line :
      All
        (λ text. breaks_line text ≡ false)
        (action.action_id ∷ action.operation ∷ action.arguments)

pub record IsRole (participants : Dict ParticipantSpec) (role : RoleCommand) : Type 0 where
  pub of_participant : Memᴰ role.actor (keys participants)
  pub commanded : non_empty role.command ≡ true
  pub not_early : lt_float role.start_offset_ms zero_float ≡ false
  pub distinct_actions : AllDistinct (map (λ (action : RoleAction). action.action_id) role.actions)
  pub in_order : InOrder zero_float role.actions
  pub valid_actions : All IsAction role.actions

-- A role waits for events of earlier roles only.
abbrev pub WaitsForEarlier : List String → List RoleCommand → Type 0
WaitsForEarlier earlier [] = Unit
WaitsForEarlier earlier (role ∷ roles) =
    All (λ (barrier : EventBarrier). Memᴰ barrier.actor earlier) role.start_after
    × WaitsForEarlier (role.actor ∷ earlier) roles

pub record IsExecution (participants : Dict ParticipantSpec) (execution : ExecutionSpec)
    : Type 0 where
  pub some_roles : non_empty execution.roles ≡ true
  pub distinct_actors : AllDistinct (map (λ (role : RoleCommand). role.actor) execution.roles)
  pub valid_roles : All (IsRole participants) execution.roles
  pub causal : WaitsForEarlier [] execution.roles

abbrev pub ExecutesRightly : Dict ParticipantSpec → Option ExecutionSpec → Type 0
ExecutesRightly participants none = Unit
ExecutesRightly participants (some execution) = IsExecution participants execution

-- A participant stands under its own name, which is one for a file.
abbrev pub IsNamed : String × ParticipantSpec → Type 0
IsNamed (name, participant) =
    (is_actor_name name ≡ true) × (participant.name ≡ name) × (is_blank participant.role ≡ false)

pub record IsWellFormed (scenario : Scenario) : Type 0 where
  pub identified : is_blank scenario.scenario_id ≡ false
  pub titled : is_blank scenario.title ≡ false
  pub in_domain : (n : ℕ) × (scenario.domain_id ≡ pos n) × (n ≤ 232)
  pub named : All IsNamed scenario.participants
  pub distinct_names : AllDistinct (keys scenario.participants)
  pub distinct_grants : AllDistinct scenario.grant_order
  pub grants_all :
      (name : String) → Memᴰ name scenario.grant_order ↔ Memᴰ name (keys scenario.participants)
  pub some_assertion : non_empty scenario.assertions ≡ true
  pub distinct_assertions :
      AllDistinct (map (λ (assertion : AssertionSpec). assertion.assertion_id) scenario.assertions)
  pub executes : ExecutesRightly scenario.participants scenario.execution

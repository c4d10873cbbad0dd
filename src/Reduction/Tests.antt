-- ===== src/Reduction/Tests.antt =====
-- A plan of two actions of which one is needed, for src/ddsleuth/reduction.py, and the theorems
-- about the reduction applied to it.
use ddsleuth.Artifacts.{RuntimeArtifact}
use ddsleuth.Json.{Dict, JsonValue, finite, nan, of_fields, of_items, scale, to_fields, to_items}
use ddsleuth.Json.Numbers.{add_float, float_of_int}
use ddsleuth.Prelude.{
  List, keep, not, ℕ, ◌⊎◌, Result, [], err, false, if◌then◌else◌, ok, pos, refl, true, ◌∷◌, ◌≡◌,
}
use ddsleuth.Reduction.{ReductionError, ReductionResult, minimize_action_plan}
use ddsleuth.Reduction.Loop.{Search, Executor, reduce, remove_actions, reproduces}
use ddsleuth.Reduction.Plans.{
  ActionKey, action_keys, change_dict_at, change_dicts, has_key, on_roles, roles, timing_sum,
  without_actions,
}
use ddsleuth.Reduction.Schedule.{attempt, normalize}
use ddsleuth.SampleDocument.{document, no_digest, two_actions}
use ddsleuth.ScenarioParser.{parse_scenario}
use ddsleuth.ScenarioParser.Participants.{parse_grant_order, parse_participants}
use ddsleuth.ScenarioParser.Roles.{parse_execution}
use ddsleuth.ScenarioParser.Values.{
  ScenarioError, breaks_line, is_actor_name, require_string, string_list,
}
use ddsleuth.Model.{Scenario}
use ddsleuth.Reduction.Minimized.{Bounded, Kept, NotThere, minimize_action_plan-IsReproduced}
use ddsleuth.Reduction.Removal.{HasIds, action_keys-remove_actions}
use ddsleuth.Samples.{scenario_with}

abbrev artifact : RuntimeArtifact
artifact = record {
  artifact_id = "x1";
  fingerprint = "f1";
  family = "replay";
  title = "sample";
  observation_class = "runtime";
  outcome = "accepted";
  actors = [];
  resources = [];
  evidence_events = [];
  causal_signature = [];
  boundary_phases = [];
  boundary_depth = pos 0;
  evidence_quality = finite (pos 0);
  execution_complete = true;
  observations = [];
}

-- The artifact shows if alice takes the second action.
abbrev run : Executor
run trial raw = if has_key (action_keys raw) ("alice", "two") then artifact ∷ [] else []

abbrev or_result : Result ReductionError ReductionResult → ReductionResult
or_result (ok result) = result
or_result (err error) = record {
  scenario = [];
  target_fingerprint = "";
  original_action_count = 0;
  minimized_action_count = 0;
  original_timing_sum_ms = nan;
  minimized_timing_sum_ms = nan;
  execution_trials = 0;
  preserved = false;
}

minimized : ReductionResult
unfolding minimize_action_plan timing_sum action_keys roles on_roles change_dicts change_dict_at
    without_actions reproduces remove_actions reduce normalize attempt add_float scale
    parse_scenario require_string string_list parse_participants parse_grant_order parse_execution
    is_actor_name breaks_line float_of_int of_fields of_items to_fields to_items
minimized = or_result (minimize_action_plan no_digest "f1" run (document two_actions) (pos 8))

minimized_lem :
    minimize_action_plan no_digest "f1" run (document two_actions) (pos 8) ≡ ok minimized
unfolding minimized
minimized_lem = refl

-- One action is left, at time 0.
minimized-counts : (minimized.minimized_action_count ≡ 1) × (minimized.execution_trials ≡ 4)
unfolding minimized
minimized-counts = (refl, refl)

minimize_action_plan-IsReproduced_example :
    ((n : ℕ) × (pos 8 ≡ pos n) × Bounded no_digest "f1" run n minimized)
    × (Kept no_digest "f1" run (document two_actions) minimized
        ⊎ NotThere no_digest "f1" run (document two_actions) minimized)
minimize_action_plan-IsReproduced_example =
    minimize_action_plan-IsReproduced no_digest "f1" run (document two_actions) (pos 8) minimized
      minimized_lem

abbrev begin : Search
begin = record {
  progress = record { current = document two_actions; trials = 1 };
  remaining = ("alice", "one") ∷ ("alice", "two") ∷ [];
  granularity = 2;
}

abbrev or_begin : Result ScenarioError Search → Search
or_begin (ok state) = state
or_begin (err error) = begin

found : Search
unfolding action_keys roles on_roles change_dicts without_actions reproduces remove_actions reduce
    scale parse_scenario require_string string_list parse_participants parse_grant_order
    parse_execution is_actor_name breaks_line float_of_int of_fields of_items to_fields to_items
found = or_begin (reduce no_digest "f1" run 8 8 begin)

found-needed : (found.remaining ≡ ("alice", "two") ∷ []) × (found.progress.trials ≡ 3)
unfolding found
found-needed = (refl, refl)

or_none : Result ScenarioError Scenario → Scenario
or_none (ok scenario) = scenario
or_none (err error) = scenario_with []

accepted_as : Scenario
unfolding parse_scenario require_string string_list parse_participants parse_grant_order
    parse_execution is_actor_name breaks_line float_of_int of_fields of_items scale or_none
accepted_as = or_none (parse_scenario no_digest (document two_actions))

abbrev first_action : List ActionKey
first_action = ("alice", "one") ∷ []

abbrev or_document : Result ScenarioError (Dict JsonValue) → Dict JsonValue
or_document (ok raw) = raw
or_document (err error) = []

shorter : Dict JsonValue
unfolding on_roles change_dicts without_actions remove_actions scale parse_scenario require_string
    string_list parse_participants parse_grant_order parse_execution is_actor_name breaks_line
    float_of_int of_fields of_items to_fields to_items
shorter = or_document (remove_actions no_digest (document two_actions) first_action)

shorter_lem : remove_actions no_digest (document two_actions) first_action ≡ ok shorter
unfolding shorter
shorter_lem = refl

two_actions-HasIds : HasIds (document two_actions)
unfolding roles of_items of_fields
two_actions-HasIds = (tt, ((("one", refl), (("two", refl), tt)), tt))

action_keys-remove_actions_example :
    action_keys shorter
    ≡ keep (λ key. not (has_key first_action key)) (action_keys (document two_actions))
action_keys-remove_actions_example =
    action_keys-remove_actions no_digest (document two_actions) first_action shorter
      two_actions-HasIds shorter_lem

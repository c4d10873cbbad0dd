-- ===== src/ScenarioParser/Tests.antt =====
-- A document for src/ddsleuth/scenario.py, and the theorem about the parser applied to it.
use ddsleuth.Json.{cons, int, nil, of_fields, of_items, scale, float, nan}
use ddsleuth.Json.Numbers.{float_of_int}
use ddsleuth.Model.{Scenario}
use ddsleuth.Prelude.{Bool, Result, [], err, false, ok, pos, refl, true, ◌≡◌}
use ddsleuth.SampleDocument.{action, document, no_digest, two_actions}
use ddsleuth.Samples.{scenario_with}
use ddsleuth.ScenarioParser.{parse_scenario}
use ddsleuth.ScenarioParser.Accepted.{parse_scenario-IsWellFormed}
use ddsleuth.ScenarioParser.Participants.{parse_grant_order, parse_participants}
use ddsleuth.ScenarioParser.Roles.{parse_execution}
use ddsleuth.ScenarioParser.Values.{
  ScenarioError, breaks_line, is_actor_name, require_string, string_list, unordered_actions,
}
use ddsleuth.ScenarioParser.WellFormed.{IsWellFormed}

abbrev or_sample : Result ScenarioError Scenario → Scenario
or_sample (ok scenario) = scenario
or_sample (err error) = scenario_with []

parsed : Scenario
unfolding parse_scenario require_string string_list parse_participants parse_grant_order
    parse_execution is_actor_name breaks_line float_of_int of_fields of_items scale
parsed = or_sample (parse_scenario no_digest (document two_actions))

parsed_lem : parse_scenario no_digest (document two_actions) ≡ ok parsed
unfolding parsed
parsed_lem = refl

parse_scenario-IsWellFormed_example : IsWellFormed parsed
parse_scenario-IsWellFormed_example =
    parse_scenario-IsWellFormed no_digest (document two_actions) parsed parsed_lem

-- An action that is timed before the one ahead of it is refused.
unordered :
    parse_scenario no_digest
      (document (cons (action "one" (int (pos 5))) (cons (action "two" (int (pos 4))) nil)))
    ≡ err (unordered_actions "alice")
unfolding parse_scenario require_string string_list parse_participants parse_grant_order
    parse_execution is_actor_name breaks_line float_of_int of_fields of_items scale
unordered = refl

abbrev is_ok : Result ScenarioError Scenario → Bool
is_ok (ok scenario) = true
is_ok (err error) = false

-- A time that is no number lets an earlier one stand behind a later one.
nan_hides_order :
    is_ok (
      parse_scenario no_digest (
        document (
          cons
            (action "one" (int (pos 5)))
            (cons (action "two" (float nan)) (cons (action "three" (int (pos 4))) nil)))))
    ≡ true
unfolding parse_scenario require_string string_list parse_participants parse_grant_order
    parse_execution is_actor_name breaks_line float_of_int of_fields of_items scale
nan_hides_order = refl

-- ===== src/ScenarioParser/Roles.antt =====
-- The execution of `parse_scenario` in src/ddsleuth/scenario.py: its roles, their barriers and
-- their actions. The loops pass on what they have read: the actors and the action ids seen, and the
-- time of the action before.
-- `execution.roles[role_index].start_after[index]`, for the actors of the earlier roles
pub mod Parts
pub mod Guarantees
use ddsleuth.Json.{
  end, Dict, Float, JsonValue, arr, finite, get, get_or, int, nil, null, obj, of_fields, of_items,
  str,
}
use ddsleuth.Json.Numbers.{lt_float}
use ddsleuth.Model.{EventBarrier, ExecutionSpec, ParticipantSpec, RoleAction, RoleCommand}
use ddsleuth.Model.EventKind.{value}
use ddsleuth.Prelude.{
  guard, List, Option, Result, String, [], any, err, negsuc, non_empty, none, not, ok, pos, some,
  suc, ℕ, ◌-◌, ◌>>=◌, ◌>>◌, ◌^◌, ◌∷◌,
}
use ddsleuth.ScenarioParser.Participants.{contains, keys}
use ddsleuth.ScenarioParser.Values.{
  ScenarioError, array, breaks_line, duplicate_action, duplicate_role, entry_must_be_object,
  environment_must_be_strings, in_action, in_barrier, in_execution, in_role, is_non_negative,
  is_positive, mapping, must_be_array, must_be_non_empty, must_be_non_negative, must_be_object,
  must_be_positive, must_be_string, not_an_earlier_role, optional_string, require_string,
  string_list, tabs_or_newlines, to_float, unknown_actor, unordered_actions,
}

pub parse_barrier : List String → ℕ → ℕ → JsonValue → Result ScenarioError EventBarrier
parse_barrier seen_actors role_index index barrier_raw = do
  raw ← mapping (must_be_object (in_barrier role_index index)) barrier_raw
  actor ← require_string raw "actor" (in_barrier role_index index)
  guard (contains seen_actors actor) (not_an_earlier_role role_index index)
  kind ← require_string raw "kind" (in_barrier role_index index)
  outcome ←
      optional_string (must_be_string (in_barrier role_index index) "outcome") (get raw "outcome")
  attributes ←
      mapping (entry_must_be_object (in_barrier role_index index) "attributes")
        (get_or raw "attributes" (obj end))
  ok (record { actor = actor; kind = kind; outcome = outcome; attributes = attributes })

pub barriers_from : List String → ℕ → ℕ → List JsonValue → Result ScenarioError (List EventBarrier)
unfolding parse_barrier
barriers_from seen_actors role_index index [] = ok []
barriers_from seen_actors role_index index (raw ∷ raws) = do
  first ← parse_barrier seen_actors role_index index raw
  rest ← barriers_from seen_actors role_index (suc index) raws
  ok (first ∷ rest)

pub parse_action :
    String → ℕ → List String → Float → ℕ → JsonValue → Result ScenarioError RoleAction
parse_action actor role_index action_ids previous_at_ms index action_raw = do
  raw ← mapping (must_be_object (in_action role_index index)) action_raw
  action_id ← require_string raw "id" (in_action role_index index)
  guard (not (contains action_ids action_id)) (duplicate_action actor action_id)
  guard (is_non_negative (get raw "at_ms"))
      (must_be_non_negative (in_action role_index index) "at_ms")
  at_ms ← to_float (get raw "at_ms")
  guard (not (lt_float at_ms previous_at_ms)) (unordered_actions actor)
  operation ← require_string raw "operation" (in_action role_index index)
  arguments ←
      string_list (get_or raw "arguments" (arr nil)) (in_action role_index index) "arguments"
  guard (not (any breaks_line (action_id ∷ operation ∷ arguments)))
      (tabs_or_newlines role_index index)
  ok (record { action_id = action_id; at_ms = at_ms; operation = operation; arguments = arguments })

pub actions_from :
    String → ℕ → List String → Float → ℕ → List JsonValue → Result ScenarioError (List RoleAction)
unfolding parse_action
actions_from actor role_index action_ids previous_at_ms index [] = ok []
actions_from actor role_index action_ids previous_at_ms index (raw ∷ raws) = do
  first ← parse_action actor role_index action_ids previous_at_ms index raw
  rest ← actions_from actor role_index (first.action_id ∷ action_ids) first.at_ms (suc index) raws
  ok (first ∷ rest)

-- `previous_at_ms = -1.0`
abbrev pub before_all : Float
before_all = finite (negsuc (2 ^ 1074 - 1))

-- The entries of a mapping whose values are texts.
pub environment_of : ScenarioError → Dict JsonValue → Result ScenarioError (Dict String)
environment_of error [] = ok []
environment_of error ((key, str value) ∷ entries) = do
  rest ← environment_of error entries
  ok ((key, value) ∷ rest)
environment_of error (_ ∷ entries) = err error

abbrev environment_from : ScenarioError → JsonValue → Result ScenarioError (Dict String)
environment_from error value = do entries ← mapping error value; environment_of error entries

pub parse_role :
    Dict ParticipantSpec → List String → ℕ → JsonValue → Result ScenarioError RoleCommand
unfolding barriers_from actions_from environment_of
parse_role participants seen_actors index role_raw = do
  raw ← mapping (must_be_object (in_role index)) role_raw
  actor ← require_string raw "actor" (in_role index)
  guard (contains (keys participants) actor) (unknown_actor actor)
  guard (not (contains seen_actors actor)) (duplicate_role actor)
  command ← string_list (get raw "command") (in_role index) "command"
  guard (non_empty command) (must_be_non_empty (in_role index) "command")
  environment ←
      environment_from (environment_must_be_strings index) (get_or raw "environment" (obj end))
  barriers_raw ←
      array (must_be_array (in_role index) "start_after") (get_or raw "start_after" (arr nil))
  barriers ← barriers_from seen_actors index 0 barriers_raw
  guard (is_non_negative (get_or raw "start_offset_ms" (int (pos 0))))
      (must_be_non_negative (in_role index) "start_offset_ms")
  actions_raw ← array (must_be_array (in_role index) "actions") (get_or raw "actions" (arr nil))
  actions ← actions_from actor index [] before_all 0 actions_raw
  start_offset_ms ← to_float (get_or raw "start_offset_ms" (int (pos 0)))
  ok (record {
    actor = actor;
    command = command;
    environment = environment;
    start_after = barriers;
    start_offset_ms = start_offset_ms;
    actions = actions;
  })

pub roles_from :
    Dict ParticipantSpec
    → List String
    → ℕ
    → List JsonValue
    → Result ScenarioError (List RoleCommand)
unfolding parse_role
roles_from participants seen_actors index [] = ok []
roles_from participants seen_actors index (raw ∷ raws) = do
  first ← parse_role participants seen_actors index raw
  rest ← roles_from participants (first.actor ∷ seen_actors) (suc index) raws
  ok (first ∷ rest)

abbrev pub some_roles :
    Dict ParticipantSpec → List JsonValue → Result ScenarioError (List RoleCommand)
some_roles participants [] = err (must_be_non_empty in_execution "roles")
some_roles participants (raw ∷ raws) = roles_from participants [] 0 (raw ∷ raws)

pub parse_roles : Dict ParticipantSpec → JsonValue → Result ScenarioError (List RoleCommand)
unfolding roles_from
parse_roles participants (arr items) = some_roles participants (of_items items)
parse_roles participants _ = err (must_be_non_empty in_execution "roles")

unfoldable pub parse_execution :
    Dict ParticipantSpec → JsonValue → Result ScenarioError (Option ExecutionSpec)
unfolding parse_roles
parse_execution participants null = ok none
parse_execution participants (obj fields) = do
  let raw = of_fields fields
  network ← require_string raw "network" in_execution
  guard (is_positive (get_or raw "timeout_seconds" (int (pos 60))))
      (must_be_positive in_execution "timeout_seconds")
  log_format ← require_string raw "log_format" in_execution
  roles ← parse_roles participants (get raw "roles")
  timeout_seconds ← to_float (get_or raw "timeout_seconds" (int (pos 60)))
  ok (
      some (record {
        network = network;
        timeout_seconds = timeout_seconds;
        log_format = log_format;
        roles = roles;
      }))
parse_execution participants _ = err (must_be_object in_execution)

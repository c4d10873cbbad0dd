-- ===== src/Trajectory/Inferred.antt =====
-- `_role_order` and `_causal_action_mutations` of src/ddsleuth/trajectory.py: the actors in the
-- order of their roles, and the crossings of a boundary action with a neighbour.
pub mod Crossings
pub mod Adjacent
use ddsleuth.Json.{Dict, JsonValue, arr, as_str, get, obj, of_fields, of_items, str}
use ddsleuth.Prelude.{
  guard, or_error, non_empty, Bool, List, Option, Result, String, [], any, err, false,
  if◌then◌else◌, leb, length, ltb, map, none, not, ok, some, suc, true, ℕ, ◌&&◌, ◌++◌, ◌==◌, ◌>>=◌,
  ◌>>◌, ◌||◌, ◌∷◌,
}
use ddsleuth.Reduction.Plans.{roles}
use ddsleuth.Trajectory.Causal.{
  CausalActionMutation, TrajectoryError, first_position, insert_at, is_causal_boundary_operation,
  needs_execution, needs_roles, no_anchor, place_of, remove_at, role_without_actor, too_many_roles,
}
use ddsleuth.Trajectory.Descriptors.{same_texts}

abbrev no_actor : ℕ → JsonValue → Result TrajectoryError String
no_actor index (obj fields) =
    or_error (role_without_actor index) (as_str (get (of_fields fields) "actor"))
no_actor index _ = err (role_without_actor index)

unfoldable pub actors_from : ℕ → List JsonValue → Result TrajectoryError (List String)
actors_from index [] = ok []
actors_from index (role ∷ roles) = do
  actor ← no_actor index role
  rest ← actors_from (suc index) roles
  ok (actor ∷ rest)

abbrev pub actors_in : JsonValue → Result TrajectoryError (List String)
unfolding actors_from
actors_in (arr items) = do
  guard (non_empty (of_items items)) needs_roles
  actors ← actors_from 0 (of_items items)
  guard (leb (length actors) 8) too_many_roles
  ok actors
actors_in _ = err needs_roles

abbrev pub actors_of_execution : JsonValue → Result TrajectoryError (List String)
actors_of_execution (obj fields) = actors_in (get (of_fields fields) "roles")
actors_of_execution _ = err needs_execution

unfoldable pub role_order : Dict JsonValue → Result TrajectoryError (List String)
role_order raw = actors_of_execution (get raw "execution")

-- The id and the operation of an action that has both.
pub record PlannedAction : Type 0 where
  pub id : String
  pub operation : String

abbrev planned_texts : JsonValue → JsonValue → Option PlannedAction
planned_texts (str id) (str operation) = some (record { id = id; operation = operation })
planned_texts _ _ = none

abbrev planned_action : JsonValue → Option PlannedAction
planned_action (obj fields) =
    planned_texts (get (of_fields fields) "id") (get (of_fields fields) "operation")
planned_action _ = none

-- `valid_actions`, if all the actions are valid
unfoldable pub valid_actions : List JsonValue → Option (List PlannedAction)
valid_actions [] = some []
valid_actions (action ∷ actions) = elim (planned_action action) [
  | none ↦ none
  | some planned ↦ elim (valid_actions actions) [ none ↦ none | some rest ↦ some (planned ∷ rest) ]
]

-- The order of a role's actions that a mutation results in.
abbrev pub OrderKey : Type 0
OrderKey = String × List String

abbrev has_order : List OrderKey → OrderKey → Bool
has_order keys key = any (λ other. other.0 == key.0 && same_texts other.1 key.1) keys

pub record Inference : Type 0 where
  pub resulting_orders : List OrderKey
  pub mutations : List CausalActionMutation

abbrev pub mutation_of : String → String → (action anchor : PlannedAction) → CausalActionMutation
mutation_of actor relation action anchor = record {
  actor = actor;
  action_id = action.id;
  anchor_action_id = anchor.id;
  relation = relation;
  operation = action.operation;
  anchor_operation = anchor.operation;
}

module _ (actor : String) (original_ids : List String) where
  -- A crossing is added unless its order is the given one or was there already.
  abbrev pub add_crossing : List String → CausalActionMutation → Inference → Inference
  add_crossing reordered mutation found =
      if has_order found.resulting_orders (actor, reordered) || same_texts reordered original_ids
      then found
      else record {
        resulting_orders = found.resulting_orders ++ (actor, reordered) ∷ [];
        mutations = found.mutations ++ mutation ∷ [];
      }

  -- The action at the index crosses its neighbour. The text that is searched for is there.
  unfoldable pub cross :
      ℕ → String → (action anchor : PlannedAction) → Inference → Result TrajectoryError Inference
  cross index relation action anchor found = do
    let rest = remove_at index original_ids
    target ← or_error no_anchor (first_position (λ id. id == anchor.id) rest)
    ok (
        add_crossing (insert_at (place_of relation target) action.id rest)
          (mutation_of actor relation action anchor) found)

  abbrev pub cross_before :
      ℕ → Option PlannedAction → PlannedAction → Inference → Result TrajectoryError Inference
  unfolding cross
  cross_before index none action found = ok found
  cross_before index (some anchor) action found = cross index "before" action anchor found

  abbrev pub cross_after :
      ℕ → PlannedAction → List PlannedAction → Inference → Result TrajectoryError Inference
  unfolding cross
  cross_after index action [] found = ok found
  cross_after index action (anchor ∷ rest) found = cross index "after" action anchor found

  -- The loop over the actions, with the action ahead.
  unfoldable pub infer_actions :
      ℕ → Option PlannedAction → List PlannedAction → Inference → Result TrajectoryError Inference
  unfolding cross is_causal_boundary_operation
  infer_actions index previous [] found = ok found
  infer_actions index previous (action ∷ rest) found =
      elim (is_causal_boundary_operation action.operation) [
        | true ↦ do
          crossed ← cross_before index previous action found
          both ← cross_after index action rest crossed
          infer_actions (suc index) (some action) rest both
        | false ↦ infer_actions (suc index) (some action) rest found
      ]

abbrev pub ids_of : List PlannedAction → List String
ids_of planned = map (λ (action : PlannedAction). action.id) planned

abbrev pub infer_planned :
    String → Option (List PlannedAction) → Inference → Result TrajectoryError Inference
unfolding infer_actions
infer_planned actor none found = ok found
infer_planned actor (some planned) found =
    if ltb (length planned) 2
    then ok found
    else infer_actions actor (ids_of planned) 0 none planned found

abbrev pub planned_in : JsonValue → Option (List PlannedAction)
unfolding valid_actions
planned_in (arr items) = valid_actions (of_items items)
planned_in _ = none

abbrev infer_role : Option String → JsonValue → Inference → Result TrajectoryError Inference
infer_role none actions found = ok found
infer_role (some actor) actions found = infer_planned actor (planned_in actions) found

unfoldable pub infer_roles : List (Dict JsonValue) → Inference → Result TrajectoryError Inference
unfolding infer_actions
infer_roles [] found = ok found
infer_roles (role ∷ roles) found = do
  further ← infer_role (as_str (get role "actor")) (get role "actions") found
  infer_roles roles further

unfoldable pub causal_action_mutations :
    Dict JsonValue → Result TrajectoryError (List CausalActionMutation)
unfolding infer_roles
causal_action_mutations raw = do
  found ← infer_roles (roles raw) (record { resulting_orders = []; mutations = [] })
  ok found.mutations

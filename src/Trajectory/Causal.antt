-- ===== src/Trajectory/Causal.antt =====
-- The causal mutations of src/ddsleuth/trajectory.py: one boundary action crosses a neighbour, while
-- the times of the plan stay where they were.
pub mod Positions
pub mod Times
pub mod Retimed
pub mod Crossing
use ddsleuth.Semantics.Glob.{codes}
use ddsleuth.Json.{
  float, Float, JsonValue, bool, equals_str, get, insert, null, obj, of_fields, str, to_fields,
}
use ddsleuth.Json.Numbers.{lt_float}
use ddsleuth.Prelude.{
  guard, or_error, length, Bool, List, Option, Result, String, [], any, eq_nat, err, false,
  get_elem?, if◌then◌else◌, leb, none, ok, some, sorted, suc, true, zero, ℕ, ◌&&◌, ◌+◌, ◌==◌, ◌>>=◌,
  ◌>>◌, ◌||◌, ◌∷◌,
}
use ddsleuth.Reduction.Plans.{is_plain_number}
use ddsleuth.ScenarioParser.Values.{ScenarioError, to_float}

pub record CausalActionMutation : Type 0 where
  pub actor : String
  pub action_id : String
  pub anchor_action_id : String
  pub relation : String
  pub operation : String
  pub anchor_operation : String

-- `TrajectoryError`, and what else is raised: a StopIteration where no anchor is left, and the
-- errors of the parts that the trajectories call.
pub data TrajectoryError : Type 0 where
  unknown_action untimed_actions no_anchor : TrajectoryError
  needs_execution needs_roles too_many_roles not_mutable order_differs : TrajectoryError
  role_without_actor : ℕ → TrajectoryError
  budget_out_of_range bad_spacings bad_modes bad_jitters bad_offsets : TrajectoryError
  no_trajectories : TrajectoryError
  scenario_error : ScenarioError → TrajectoryError

abbrev pub boundary_operation_markers : List String
boundary_operation_markers =
    "credential.revoke" ∷ "authority.revoke" ∷ "authorization.revoke" ∷ "key.rotate"
    ∷ "participant.disconnect" ∷ "participant.reconnect" ∷ "endpoint.destroy" ∷ "endpoint.recreate"
    ∷ "transport." ∷ "replay" ∷ "drop" ∷ "delay" ∷ "duplicate" ∷ []

abbrev pub causal_boundary_operation_markers : List String
causal_boundary_operation_markers =
    "credential." ∷ "authority." ∷ "authorization." ∷ "key." ∷ "participant." ∷ "endpoint.destroy"
    ∷ "endpoint.recreate" ∷ "transport." ∷ []

-- `str.lower`, as far as it yields ASCII: the Kelvin sign becomes k, and a dotted I becomes i with
-- a mark. Any other letter stays beyond ASCII, and the markers have none of those.
abbrev lower : List ℕ → List ℕ
lower [] = []
lower (c ∷ cs) =
    if leb b'A' c && leb c b'Z'
    then (c + 32) ∷ lower cs
    else if eq_nat c 8490
    then b'k' ∷ lower cs
    else if eq_nat c 304
    then b'i' ∷ 775 ∷ lower cs
    else c ∷ lower cs

abbrev begins_with : List ℕ → List ℕ → Bool
begins_with [] cs = true
begins_with (d ∷ ds) [] = false
begins_with (d ∷ ds) (c ∷ cs) = eq_nat d c && begins_with ds cs

-- `marker in text`
abbrev occurs_in : List ℕ → List ℕ → Bool
occurs_in marker [] = begins_with marker []
occurs_in marker (c ∷ cs) = begins_with marker (c ∷ cs) || occurs_in marker cs

has_marker : List String → String → Bool
has_marker markers operation =
    any (λ marker. occurs_in (codes marker) (lower (codes operation))) markers

unfoldable pub is_boundary_operation : JsonValue → Bool
unfolding has_marker
is_boundary_operation (str operation) = has_marker boundary_operation_markers operation
is_boundary_operation _ = false

unfoldable pub is_causal_boundary_operation : String → Bool
unfolding has_marker
is_causal_boundary_operation operation = has_marker causal_boundary_operation_markers operation

module _ {ℓ} {A : Type ℓ} where
  abbrev pub remove_at : ℕ → List A → List A
  remove_at index [] = []
  remove_at zero (x ∷ xs) = xs
  remove_at (suc index) (x ∷ xs) = x ∷ remove_at index xs

  -- `xs.insert(index, x)`
  abbrev pub insert_at : ℕ → A → List A → List A
  insert_at zero x xs = x ∷ xs
  insert_at (suc index) x [] = x ∷ []
  insert_at (suc index) x (y ∷ ys) = y ∷ insert_at index x ys

  -- The first and the last position at which the test holds.
  abbrev pub first_position : (A → Bool) → List A → Option ℕ
  first_position test [] = none
  first_position test (x ∷ xs) =
      if test x
      then some 0
      else elim (first_position test xs) [ none ↦ none | some i ↦ some (suc i) ]

  abbrev pub last_position : (A → Bool) → List A → Option ℕ
  last_position test [] = none
  last_position test (x ∷ xs) = elim (last_position test xs) [
    | none ↦ if test x then some 0 else none
    | some i ↦ some (suc i)
  ]

-- `action.get("id")` of a mapping
abbrev pub id_value : JsonValue → JsonValue
id_value (obj fields) = get (of_fields fields) "id"
id_value _ = null

abbrev pub is_action : String → JsonValue → Bool
is_action action_id action = equals_str (id_value action) action_id

-- `isinstance(value, (int, float))`
abbrev pub is_number : JsonValue → Bool
is_number (bool b) = true
is_number v = is_plain_number v

-- `float(action["at_ms"])` of a mapping with a number there
abbrev pub time_in : JsonValue → Option JsonValue
time_in (obj fields) =
    let at_ms = get (of_fields fields) "at_ms" in if is_number at_ms then some at_ms else none
time_in _ = none

abbrev pub from_scenario {ℓ} : {A : Type ℓ} → Result ScenarioError A → Result TrajectoryError A
from_scenario (ok x) = ok x
from_scenario (err error) = err (scenario_error error)

-- The times of the actions that have one, in their order.
pub times_of : List JsonValue → Result TrajectoryError (List Float)
times_of [] = ok []
times_of (action ∷ actions) = elim (time_in action) [
  | none ↦ times_of actions
  | some at_ms ↦ do time ← from_scenario (to_float at_ms); rest ← times_of actions; ok (time ∷ rest)
]

abbrev pub with_time : Float → JsonValue → JsonValue
with_time time (obj fields) = obj (to_fields (insert "at_ms" (float time) (of_fields fields)))
with_time time other = other

-- `for action, at_ms in zip(mutable, original_times)`
abbrev pub with_times : List Float → List JsonValue → List JsonValue
with_times [] actions = actions
with_times (time ∷ times) [] = []
with_times (time ∷ times) (action ∷ actions) = with_time time action ∷ with_times times actions

-- The moved action is put before or after its anchor.
abbrev pub place_of : String → ℕ → ℕ
place_of relation anchor_index = if relation == "before" then anchor_index else suc anchor_index

-- A stable sort of the times: any gives the same list, unless a time is NaN, for which Python leaves
-- the order open.
unfoldable pub apply_causal_action_mutation :
    List JsonValue → CausalActionMutation → Result TrajectoryError (List JsonValue)
unfolding times_of
apply_causal_action_mutation actions mutation = do
  position ← or_error unknown_action (last_position (is_action mutation.action_id) actions)
  anchor ← or_error unknown_action (last_position (is_action mutation.anchor_action_id) actions)
  times ← times_of actions
  guard (eq_nat (length times) (length actions)) untimed_actions
  moved ← or_error unknown_action (get_elem? actions position)
  let rest = remove_at position actions
  anchor_index ← or_error no_anchor (first_position (is_action mutation.anchor_action_id) rest)
  ok (
      with_times (sorted lt_float times)
        (insert_at (place_of mutation.relation anchor_index) moved rest))

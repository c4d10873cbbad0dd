-- ===== src/Trajectory/Schedule.antt =====
-- `_apply_schedule` of src/ddsleuth/trajectory.py: the roles of a case in the order of a schedule,
-- with its offsets, its barriers, its shifted times and its causal mutation.
pub mod Applied
pub mod Later
pub mod Ordered
use ddsleuth.Json.{
  Dict, Float, JsonValue, arr, as_str, equals_str, get, get_or, insert, int, obj, of_fields,
  of_items, to_fields, to_items,
}
use ddsleuth.Json.Numbers.{add_float, lt_float, zero_float}
use ddsleuth.Prelude.{
  guard, or_error, Bool, List, Option, Result, String, [], collect, eq_int, eq_nat, err, false,
  if◌then◌else◌, keep, negsuc, none, not, ok, pos, some, suc, true, zero, ℕ, ℤ, ◌%◌, ◌&&◌, ◌*◌, ◌-◌,
  ◌==◌, ◌>>=◌, ◌>>◌, ◌||◌, ◌∷◌,
}
use ddsleuth.Reduction.Plans.{dicts}
use ddsleuth.ScenarioParser.Participants.{included}
use ddsleuth.ScenarioParser.Values.{to_float}
use ddsleuth.Trajectory.Causal.{
  CausalActionMutation, TrajectoryError, apply_causal_action_mutation, from_scenario,
  is_boundary_operation, is_number, not_mutable, order_differs, with_time,
}
use ddsleuth.Trajectory.Descriptors.{TrajectoryDescriptor}

-- `max(x, y)`, which is x unless y is greater
abbrev pub max_float : Float → Float → Float
max_float x y = if lt_float x y then y else x

abbrev negated : ℤ → ℤ
negated (pos zero) = pos 0
negated (pos (suc n)) = negsuc n
negated (negsuc n) = pos (suc n)

-- `direction * jitter`, for the direction `byte % 3 - 1`
abbrev jittered : ℕ → ℤ → ℤ
jittered byte jitter =
    if eq_nat (byte % 3) 0 then negated jitter else if eq_nat (byte % 3) 1 then pos 0 else jitter

abbrev offset_for : ℤ → JsonValue → ℤ
offset_for boundary_offset operation =
    if is_boundary_operation operation then boundary_offset else pos 0

-- `rank * spacing`
abbrev times_int : ℕ → ℤ → ℤ
times_int rank (pos n) = pos (rank * n)
times_int zero (negsuc n) = pos 0
times_int (suc rank) (negsuc n) = negsuc (suc rank * suc n - 1)

-- `role.pop(key, None)`
abbrev without : String → Dict JsonValue → Dict JsonValue
without key entries = keep (λ (entry : String × JsonValue). not (entry.0 == key)) entries

-- `first_byte actor id` is the first byte of the SHA-256 of the text `actor:id`, where an action
-- without an id has its position.
module _ (first_byte : String → JsonValue → ℕ) (actor : String)
    (descriptor : TrajectoryDescriptor) where
  -- `float(at_ms) + direction * jitter + boundary_offset`, not below 0
  shifted : ℕ → Dict JsonValue → JsonValue → Result TrajectoryError Float
  unfolding is_boundary_operation
  shifted index fields at_ms = do
    time ← from_scenario (to_float at_ms)
    jitter ← from_scenario (
        to_float (
          int (
            jittered (first_byte actor (get_or fields "id" (int (pos index))))
              descriptor.action_jitter_ms)))
    offset ←
        from_scenario
          (to_float (int (offset_for descriptor.boundary_offset_ms (get fields "operation"))))
    ok (max_float zero_float (add_float (add_float time jitter) offset))

  -- The loop over the actions, with the time of the last one that has a time.
  unfoldable pub shift_actions :
      ℕ → Float → List JsonValue → Result TrajectoryError (List JsonValue)
  unfolding shifted
  shift_actions index previous [] = ok []
  shift_actions index previous (obj fields ∷ actions) =
      elim (is_number (get (of_fields fields) "at_ms")) [
        | true ↦ do
          mutated ← shifted index (of_fields fields) (get (of_fields fields) "at_ms")
          let time = max_float previous mutated
          rest ← shift_actions (suc index) time actions
          ok (with_time time (obj fields) ∷ rest)
        | false ↦ do rest ← shift_actions (suc index) previous actions; ok (obj fields ∷ rest)
      ]
  shift_actions index previous (action ∷ actions) = do
    rest ← shift_actions (suc index) previous actions
    ok (action ∷ rest)

  abbrev moves_times : Bool
  moves_times =
      not (eq_int descriptor.action_jitter_ms (pos 0))
      || not (eq_int descriptor.boundary_offset_ms (pos 0))

  abbrev of_actor : Option CausalActionMutation → Option CausalActionMutation
  of_actor none = none
  of_actor (some mutation) = if mutation.actor == actor then some mutation else none

  abbrev crossed_actions :
      Option CausalActionMutation → List JsonValue → Result TrajectoryError (List JsonValue)
  crossed_actions none actions = ok actions
  crossed_actions (some mutation) actions = apply_causal_action_mutation actions mutation

  -- What becomes of a list of actions.
  unfoldable pub schedule_actions : List JsonValue → Result TrajectoryError (List JsonValue)
  unfolding shift_actions
  schedule_actions actions = do
    moved ← if moves_times then shift_actions 0 zero_float actions else ok actions
    crossed_actions (of_actor descriptor.causal_mutation) moved

  abbrev with_actions : Dict JsonValue → JsonValue → Result TrajectoryError (Dict JsonValue)
  with_actions role (arr items) = do
    actions ← schedule_actions (of_items items)
    ok (insert "actions" (arr (to_items actions)) role)
  with_actions role _ = ok role

  unfoldable pub schedule_role : ℕ → Dict JsonValue → Result TrajectoryError (Dict JsonValue)
  unfolding schedule_actions
  schedule_role rank role =
      let started = insert "start_offset_ms" (int (times_int rank descriptor.spacing_ms)) role in
      let released =
        if descriptor.barrier_mode == "relaxed" then without "start_after" started else started in
      with_actions released (get released "actions")

-- `role` under `actor`, for the last role of the actor
abbrev role_of : String → List (Dict JsonValue) → Option (Dict JsonValue)
role_of actor [] = none
role_of actor (role ∷ rest) = elim (role_of actor rest) [
  | none ↦ if equals_str (get role "actor") actor then some role else none
  | some later ↦ some later
]

abbrev actor_of : ℕ → Dict JsonValue → Option String
actor_of index role = as_str (get role "actor")

module _ (first_byte : String → JsonValue → ℕ) (descriptor : TrajectoryDescriptor) where
  unfoldable pub schedule_roles :
      ℕ → List String → List (Dict JsonValue) → Result TrajectoryError (List JsonValue)
  unfolding schedule_role
  schedule_roles rank [] found = ok []
  schedule_roles rank (actor ∷ order) found = do
    role ← or_error order_differs (role_of actor found)
    scheduled ← schedule_role first_byte actor descriptor rank role
    rest ← schedule_roles (suc rank) order found
    ok (obj (to_fields scheduled) ∷ rest)

  abbrev as_array : JsonValue → Result TrajectoryError (List JsonValue)
  as_array (arr items) = ok (of_items items)
  as_array _ = err not_mutable

  abbrev as_object : JsonValue → Result TrajectoryError (Dict JsonValue)
  as_object (obj fields) = ok (of_fields fields)
  as_object _ = err not_mutable

  unfoldable pub apply_schedule : Dict JsonValue → Result TrajectoryError (Dict JsonValue)
  unfolding schedule_roles
  apply_schedule raw = do
    execution ← as_object (get raw "execution")
    values ← as_array (get execution "roles")
    let actors = collect actor_of 0 (dicts values)
    guard (included actors descriptor.order && included descriptor.order actors) order_differs
    scheduled ← schedule_roles 0 descriptor.order (dicts values)
    ok (
        insert "execution" (obj (to_fields (insert "roles" (arr (to_items scheduled)) execution)))
          raw)

-- ===== src/Trajectory/Tests.antt =====
-- Schedules of a plan of two actions, for src/ddsleuth/trajectory.py, and the theorems about the
-- trajectories applied to it.
use ddsleuth.Json.{
  get, lookup, Dict, cons, end, field, nil, obj, JsonValue, equals_str, int, of_fields, of_items,
  scale, str, to_fields, to_items,
}
use ddsleuth.Json.Numbers.{add_float, float_of_int, zero_float}
use ddsleuth.Prelude.{
  some, ◌==◌, All, permutations, List, Memᴰ, Result, String, Unrepeated, [], err, false, length,
  map, none, ok, pos, refl, true, ℕ, ℤ, ◌↔◌, ◌∷◌, ◌≡◌,
}
use ddsleuth.SampleDocument.{two_actions, document, action}
use ddsleuth.Trajectory.Causal.{
  is_causal_boundary_operation, CausalActionMutation, TrajectoryError, apply_causal_action_mutation,
  is_boundary_operation,
}
use ddsleuth.Trajectory.Causal.Crossing.{IsCrossing, apply_causal_action_mutation-IsCrossing}
use ddsleuth.Trajectory.Causal.Times.{ids}
use ddsleuth.Trajectory.Descriptors.{TrajectoryDescriptor, control_of, schedule_descriptors}
use ddsleuth.Trajectory.Descriptors.Enumerated.{IsScheduled, schedule_descriptors_iff}
use ddsleuth.Trajectory.Schedule.{
  apply_schedule, schedule_actions, schedule_role, schedule_roles, shift_actions,
}
use ddsleuth.Trajectory.Schedule.Ordered.{AreShifted, shift_actions-TimesFrom}
use ddsleuth.Reduction.Plans.{dicts, roles}
use ddsleuth.Trajectory.Inferred.{
  actors_from, role_order, causal_action_mutations, cross, infer_actions, infer_roles,
  valid_actions,
}
use ddsleuth.Trajectory.Inferred.Adjacent.{causal_action_mutations-IsInferred}
use ddsleuth.Trajectory.Schedule.Applied.{InOrder, apply_schedule-InOrder}
use ddsleuth.Trajectory.Inferred.Crossings.{IsInferred}
use ddsleuth.Trajectory.Schedule.Later.{TimesFrom}

abbrev plan : List JsonValue
plan = action "one" (int (pos 5)) ∷ action "two" (int (pos 9)) ∷ []

abbrev crossing : CausalActionMutation
crossing = record {
  actor = "alice";
  action_id = "two";
  anchor_action_id = "one";
  relation = "before";
  operation = "publish";
  anchor_operation = "publish";
}

abbrev or_none : Result TrajectoryError (List JsonValue) → List JsonValue
or_none (ok actions) = actions
or_none (err error) = []

crossed : List JsonValue
unfolding apply_causal_action_mutation scale float_of_int of_fields of_items to_fields to_items
crossed = or_none (apply_causal_action_mutation plan crossing)

crossed_lem : apply_causal_action_mutation plan crossing ≡ ok crossed
unfolding crossed
crossed_lem = refl

crossed-ids : ids crossed ≡ str "two" ∷ str "one" ∷ []
unfolding crossed
crossed-ids = refl

apply_causal_action_mutation-IsCrossing_example : IsCrossing crossing plan crossed
apply_causal_action_mutation-IsCrossing_example =
    apply_causal_action_mutation-IsCrossing plan crossing crossed crossed_lem

abbrev actors : List String
actors = "alice" ∷ "bob" ∷ []

abbrev spacings : List ℤ
spacings = pos 0 ∷ pos 25 ∷ []

abbrev jitters : List ℤ
jitters = pos 0 ∷ pos 5 ∷ []

abbrev modes : List String
modes = "preserve" ∷ "relaxed" ∷ []

schedule_descriptors_iff_example :
    let schedules =
      schedule_descriptors actors spacings modes jitters (pos 0 ∷ []) (crossing ∷ []) in
    ((rest : List TrajectoryDescriptor) × (schedules ≡ control_of actors none ∷ rest))
    × Unrepeated schedules
    × ((d : TrajectoryDescriptor)
        → Memᴰ d schedules
          ↔ IsScheduled actors spacings modes jitters (pos 0 ∷ []) (crossing ∷ []) d)
schedule_descriptors_iff_example =
    schedule_descriptors_iff actors spacings modes jitters (pos 0 ∷ []) (crossing ∷ [])

-- The control, three more that preserve the order, eight that may change it, and the crossing.
schedules-count :
    length (schedule_descriptors actors spacings modes jitters (pos 0 ∷ []) (crossing ∷ [])) ≡ 13
unfolding schedule_descriptors permutations
schedules-count = refl

abbrev early : String → JsonValue → ℕ
early actor id = elim (equals_str id "two") [ true ↦ 0 | false ↦ 2 ]

abbrev jittery : TrajectoryDescriptor
jittery = record {
  order = actors;
  spacing_ms = pos 0;
  barrier_mode = "preserve";
  action_jitter_ms = pos 5;
  boundary_offset_ms = pos 0;
  causal_mutation = none;
}

shifted_plan : List JsonValue
unfolding shift_actions is_boundary_operation scale float_of_int add_float of_fields of_items
    to_fields to_items
shifted_plan = or_none (shift_actions early "alice" jittery 0 zero_float plan)

shifted_plan_lem : shift_actions early "alice" jittery 0 zero_float plan ≡ ok shifted_plan
unfolding shifted_plan
shifted_plan_lem = refl

shift_actions-TimesFrom_example :
    AreShifted early "alice" jittery 0 zero_float plan shifted_plan
    × TimesFrom zero_float shifted_plan
shift_actions-TimesFrom_example =
    shift_actions-TimesFrom early "alice" jittery 0 zero_float plan shifted_plan shifted_plan_lem

abbrev boundary_action : String → String → JsonValue
boundary_action id operation = obj (field "id" (str id) (field "operation" (str operation) end))

-- A key is rotated between two publications.
abbrev rotating : Dict JsonValue
rotating = document (
    cons (boundary_action "one" "publish")
      (cons (boundary_action "two" "Key.rotate") (cons (boundary_action "three" "publish") nil)))

abbrev or_no_mutations :
    Result TrajectoryError (List CausalActionMutation) → List CausalActionMutation
or_no_mutations (ok mutations) = mutations
or_no_mutations (err error) = []

causal_action_mutations-IsInferred_example :
    (mutations : List CausalActionMutation) × (causal_action_mutations rotating ≡ ok mutations)
    × All (IsInferred rotating) mutations
causal_action_mutations-IsInferred_example = causal_action_mutations-IsInferred rotating

-- The rotation crosses either publication.
rotating-crossings :
    map
      (λ (m : CausalActionMutation). m.anchor_action_id)
      (or_no_mutations (causal_action_mutations rotating))
    ≡ "one" ∷ "three" ∷ []
unfolding causal_action_mutations infer_roles infer_actions cross is_causal_boundary_operation
    valid_actions roles of_fields of_items
rotating-crossings = refl

rotating-order : role_order rotating ≡ ok ("bob" ∷ "alice" ∷ [])
unfolding role_order actors_from of_fields of_items
rotating-order = refl

abbrev relaxed : TrajectoryDescriptor
relaxed = record {
  order = actors;
  spacing_ms = pos 25;
  barrier_mode = "relaxed";
  action_jitter_ms = pos 5;
  boundary_offset_ms = pos 0;
  causal_mutation = some crossing;
}

abbrev or_empty : Result TrajectoryError (Dict JsonValue) → Dict JsonValue
or_empty (ok raw) = raw
or_empty (err error) = []

rescheduled : Dict JsonValue
unfolding apply_schedule schedule_roles schedule_role schedule_actions apply_causal_action_mutation
    shift_actions dicts is_boundary_operation scale float_of_int add_float of_fields of_items
    to_fields to_items
rescheduled = or_empty (apply_schedule early relaxed (document two_actions))

rescheduled_lem : apply_schedule early relaxed (document two_actions) ≡ ok rescheduled
unfolding rescheduled
rescheduled_lem = refl

apply_schedule-InOrder_example :
    InOrder relaxed (roles (document two_actions)) 0 actors (roles rescheduled)
    × ((role : Dict JsonValue) (actor : String)
        → Memᴰ role (roles (document two_actions))
        → get role "actor" ≡ str actor
        → Memᴰ actor actors)
    × ((key : String)
        → ("execution" == key) ≡ false
        → lookup key rescheduled ≡ lookup key (document two_actions))
apply_schedule-InOrder_example =
    apply_schedule-InOrder early relaxed (document two_actions) rescheduled rescheduled_lem

-- Alice publishes before bob listens, and her second action comes first.
rescheduled-actors :
    map (λ (role : Dict JsonValue). get role "start_offset_ms") (roles rescheduled)
    ≡ int (pos 0) ∷ int (pos 25) ∷ []
unfolding rescheduled roles of_items of_fields
rescheduled-actors = refl

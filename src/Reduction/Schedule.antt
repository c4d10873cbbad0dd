-- ===== src/Reduction/Schedule.antt =====
-- The second loop of `minimize_action_plan` in src/ddsleuth/reduction.py: start offsets and action
-- times are brought down, each change kept if the artifact survives.
use ddsleuth.Json.{
  float, Dict, Float, JsonValue, arr, get, get_or, insert, int, obj, of_fields, of_items, to_fields,
  to_items,
}
use ddsleuth.Json.Numbers.{lt_float, zero_float}
use ddsleuth.Prelude.{
  Bool, List, Option, Result, String, [], false, if◌then◌else◌, leb, none, ok, pos, some, suc, true,
  zero, ℕ, ◌>>=◌, ◌∷◌,
}
use ddsleuth.Reduction.Loop.{Executor, Progress, reproduces, valid}
use ddsleuth.Reduction.Plans.{change_dict_at, is_plain_number, on_roles}
use ddsleuth.ScenarioParser.Values.{ScenarioError, to_float}

abbrev pub is_positive_number : JsonValue → Bool
is_positive_number (int (pos (suc n))) = true
is_positive_number (float x) = lt_float zero_float x
is_positive_number _ = false

-- `_roles(candidate)[role_index]`, changed
abbrev pub on_role : ℕ → (Dict JsonValue → Dict JsonValue) → Dict JsonValue → Dict JsonValue
on_role role_index change document = on_roles (change_dict_at role_index change) document

abbrev with_entry : String → JsonValue → JsonValue → JsonValue
with_entry key v (obj fields) = obj (to_fields (insert key v (of_fields fields)))
with_entry key v other = other

abbrev at_place : ℕ → (JsonValue → JsonValue) → List JsonValue → List JsonValue
at_place index change [] = []
at_place zero change (v ∷ vs) = change v ∷ vs
at_place (suc index) change (v ∷ vs) = v ∷ at_place index change vs

abbrev in_array : (List JsonValue → List JsonValue) → JsonValue → JsonValue
in_array change (arr items) = arr (to_items (change (of_items items)))
in_array change other = other

pub without_offset : ℕ → Dict JsonValue → Dict JsonValue
without_offset role_index document =
    on_role role_index (insert "start_offset_ms" (int (pos 0))) document

pub with_time : ℕ → ℕ → Float → Dict JsonValue → Dict JsonValue
with_time role_index action_index previous document =
    on_role role_index
      (λ role.
        insert "actions"
          (in_array (at_place action_index (with_entry "at_ms" (float previous)))
            (get role "actions"))
          role)
      document

-- `action.get("at_ms", 0)` of a mapping, if it is a number
abbrev pub time_of : JsonValue → Option JsonValue
time_of (obj fields) =
    let at_ms = get_or (of_fields fields) "at_ms" (int (pos 0)) in
    if is_plain_number at_ms then some at_ms else none
time_of _ = none

abbrev pub actions_of : JsonValue → List JsonValue
actions_of (arr items) = of_items items
actions_of _ = []

module _ (canonical_digest : Dict JsonValue → String) (target : String) (execute : Executor)
    (max_trials : ℕ) where
  -- One execution of a changed document, which is kept if it reproduces the artifact.
  unfoldable pub attempt : Progress → Dict JsonValue → Result ScenarioError (Progress × Bool)
  attempt progress document = do
    candidate ← valid canonical_digest document
    if reproduces target execute (suc progress.trials) candidate
        then ok (record { current = candidate; trials = suc progress.trials }, true)
        else ok (record progress { trials = suc progress.trials }, false)

  -- The action's time is brought down to that of the action before, if it is later.
  unfoldable pub lower_time :
      ℕ → ℕ → Float → JsonValue → Progress → Result ScenarioError (Progress × Float)
  unfolding attempt with_time
  lower_time role_index index previous at_ms progress = do
    time ← to_float at_ms
    if lt_float previous time
        then (attempt progress (with_time role_index index previous progress.current) >>= λ tried.
            ok (tried.0, if tried.1 then previous else time))
        else ok (progress, time)

  unfoldable pub lower_times :
      ℕ → ℕ → Float → List JsonValue → Progress → Result ScenarioError Progress
  unfolding lower_time
  lower_times role_index index previous [] progress = ok progress
  lower_times role_index index previous (action ∷ actions) progress =
      elim (leb max_trials progress.trials) [
        | true ↦ ok progress
        | false ↦ elim (time_of action) [
          | none ↦ lower_times role_index (suc index) previous actions progress
          | some at_ms ↦ lower_time role_index index previous at_ms progress >>= λ lowered.
              lower_times role_index (suc index) lowered.1 actions lowered.0
        ]
      ]

  unfoldable pub drop_offset : ℕ → Dict JsonValue → Progress → Result ScenarioError Progress
  unfolding attempt without_offset
  drop_offset role_index role progress =
      if is_positive_number (get_or role "start_offset_ms" (int (pos 0)))
      then (attempt progress (without_offset role_index progress.current) >>= λ tried. ok (tried.0))
      else ok progress

  -- The roles are those of the document that the loop begins with.
  unfoldable pub normalize : ℕ → List (Dict JsonValue) → Progress → Result ScenarioError Progress
  unfolding drop_offset lower_times
  normalize role_index [] progress = ok progress
  normalize role_index (role ∷ rest) progress = elim (leb max_trials progress.trials) [
    | true ↦ ok progress
    | false ↦ do
      started ← drop_offset role_index role progress
      lowered ← lower_times role_index 0 zero_float (actions_of (get role "actions")) started
      normalize (suc role_index) rest lowered
  ]

-- ===== src/Reduction/Plans.antt =====
-- The action plan within a scenario's document, as src/ddsleuth/reduction.py reads and changes it:
-- the roles, the keys of their actions, the removal of actions and the sum of the times.
use ddsleuth.Json.{
  float, Dict, Float, JsonValue, arr, get, get_or, insert, int, obj, of_fields, of_items, str,
  to_fields, to_items,
}
use ddsleuth.Json.Numbers.{add_float, zero_float}
use ddsleuth.Prelude.{
  Bool, List, Option, Result, String, [], any, collect, concat, decimal, false, if◌then◌else◌, none,
  ok, pos, some, suc, true, zero, ℕ, ◌&&◌, ◌++◌, ◌==◌, ◌>>=◌, ◌∷◌,
}
use ddsleuth.ScenarioParser.Values.{ScenarioError, to_float}

-- `[role for role in value if isinstance(role, dict)]`
unfoldable pub dicts : List JsonValue → List (Dict JsonValue)
dicts [] = []
dicts (obj fields ∷ values) = of_fields fields ∷ dicts values
dicts (_ ∷ values) = dicts values

abbrev pub roles_in : JsonValue → List (Dict JsonValue)
roles_in (arr items) = dicts (of_items items)
roles_in _ = []

abbrev pub roles_of_execution : JsonValue → List (Dict JsonValue)
roles_of_execution (obj fields) = roles_in (get (of_fields fields) "roles")
roles_of_execution _ = []

unfoldable pub roles : Dict JsonValue → List (Dict JsonValue)
unfolding dicts
roles raw = roles_of_execution (get raw "execution")

-- An actor with the id of an action, or with `#` and the position of an action that has none.
abbrev pub ActionKey : Type 0
ActionKey = String × String

abbrev pub id_or_position : ℕ → JsonValue → String
id_or_position index (str action_id) = action_id
id_or_position index _ = concat "#" (decimal index)

abbrev pub action_key : String → ℕ → JsonValue → Option ActionKey
action_key actor index (obj fields) =
    some (actor, id_or_position index (get (of_fields fields) "id"))
action_key actor index _ = none

abbrev pub keys_of_actions : JsonValue → JsonValue → List ActionKey
keys_of_actions (str actor) (arr items) = collect (action_key actor) 0 (of_items items)
keys_of_actions _ _ = []

abbrev pub role_keys : Dict JsonValue → List ActionKey
role_keys role = keys_of_actions (get role "actor") (get role "actions")

unfoldable pub keys_of_roles : List (Dict JsonValue) → List ActionKey
keys_of_roles [] = []
keys_of_roles (role ∷ rest) = role_keys role ++ keys_of_roles rest

unfoldable pub action_keys : Dict JsonValue → List ActionKey
unfolding keys_of_roles
action_keys raw = keys_of_roles (roles raw)

abbrev pub same_key : ActionKey → ActionKey → Bool
same_key (actor, id) (actor', id') = actor == actor' && id == id'

-- `key in keys`
abbrev pub has_key : List ActionKey → ActionKey → Bool
has_key keys key = any (λ other. same_key other key) keys

abbrev pub is_removed : List ActionKey → Option ActionKey → Bool
is_removed removed none = false
is_removed removed (some key) = has_key removed key

unfoldable pub kept_actions : String → List ActionKey → ℕ → List JsonValue → List JsonValue
kept_actions actor removed index [] = []
kept_actions actor removed index (action ∷ actions) =
    let rest = kept_actions actor removed (suc index) actions in
    if is_removed removed (action_key actor index action) then rest else action ∷ rest

abbrev pub with_kept : List ActionKey → Dict JsonValue → JsonValue → JsonValue → Dict JsonValue
with_kept removed role (str actor) (arr items) =
    insert "actions" (arr (to_items (kept_actions actor removed 0 (of_items items)))) role
with_kept removed role _ _ = role

unfoldable pub without_actions : List ActionKey → Dict JsonValue → Dict JsonValue
unfolding kept_actions
without_actions removed role = with_kept removed role (get role "actor") (get role "actions")

-- A change of the roles of a copied document, in their places.
unfoldable pub change_dicts : (Dict JsonValue → Dict JsonValue) → List JsonValue → List JsonValue
change_dicts change [] = []
change_dicts change (obj fields ∷ values) =
    obj (to_fields (change (of_fields fields))) ∷ change_dicts change values
change_dicts change (value ∷ values) = value ∷ change_dicts change values

-- The change of the role at a position among those.
unfoldable pub change_dict_at :
    ℕ → (Dict JsonValue → Dict JsonValue) → List JsonValue → List JsonValue
change_dict_at index change [] = []
change_dict_at zero change (obj fields ∷ values) =
    obj (to_fields (change (of_fields fields))) ∷ values
change_dict_at (suc index) change (obj fields ∷ values) =
    obj fields ∷ change_dict_at index change values
change_dict_at index change (value ∷ values) = value ∷ change_dict_at index change values

abbrev pub on_items : (List JsonValue → List JsonValue) → JsonValue → JsonValue
on_items change (arr items) = arr (to_items (change (of_items items)))
on_items change value = value

-- The value under a key, where the key is there, is changed in its place.
abbrev pub on_entry : String → (JsonValue → JsonValue) → Dict JsonValue → Dict JsonValue
on_entry key change [] = []
on_entry key change ((name, value) ∷ entries) =
    if name == key
    then (name, change value) ∷ entries
    else (name, value) ∷ on_entry key change entries

abbrev pub on_object : (Dict JsonValue → Dict JsonValue) → JsonValue → JsonValue
on_object change (obj fields) = obj (to_fields (change (of_fields fields)))
on_object change value = value

unfoldable pub on_roles : (List JsonValue → List JsonValue) → Dict JsonValue → Dict JsonValue
on_roles change raw = on_entry "execution" (on_object (on_entry "roles" (on_items change))) raw

-- `isinstance(value, (int, float)) and not isinstance(value, bool)`
abbrev pub is_plain_number : JsonValue → Bool
is_plain_number (int n) = true
is_plain_number (float x) = true
is_plain_number _ = false

abbrev plus : Float → JsonValue → Result ScenarioError Float
plus total v = elim (is_plain_number v) [
  | true ↦ to_float v >>= λ x. ok (add_float total x)
  | false ↦ ok total
]

abbrev plus_action_time : Float → JsonValue → Result ScenarioError Float
plus_action_time total (obj fields) = plus total (get_or (of_fields fields) "at_ms" (int (pos 0)))
plus_action_time total _ = ok total

plus_actions : Float → List JsonValue → Result ScenarioError Float
plus_actions total [] = ok total
plus_actions total (action ∷ actions) = do
  sum ← plus_action_time total action
  plus_actions sum actions

abbrev plus_role_actions : Float → JsonValue → Result ScenarioError Float
plus_role_actions total (arr items) = plus_actions total (of_items items)
plus_role_actions total _ = ok total

plus_roles : Float → List (Dict JsonValue) → Result ScenarioError Float
unfolding plus_actions
plus_roles total [] = ok total
plus_roles total (role ∷ rest) = do
  with_offset ← plus total (get_or role "start_offset_ms" (int (pos 0)))
  with_actions ← plus_role_actions with_offset (get role "actions")
  plus_roles with_actions rest

-- A number that no double is near raises an OverflowError.
unfoldable pub timing_sum : Dict JsonValue → Result ScenarioError Float
unfolding plus_roles
timing_sum raw = plus_roles zero_float (roles raw)

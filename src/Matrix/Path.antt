-- ===== src/Matrix/Path.antt =====
-- `_set_path` of src/ddsleuth/matrix.py: a value is put where a dotted path leads in a document.
-- The document is a deep copy, so that the assignment in place is a new document here.
pub mod Containers
pub mod Assignment
mod Tests
use ddsleuth.Json.{end, field, Fields, Items, JsonValue, arr, cons, nil, obj}
use ddsleuth.Prelude.{
  Bool, List, Option, Result, String, [], err, false, if◌then◌else◌, none, ok, some, suc, true,
  zero, ℕ, ◌==◌, ◌>>=◌, ◌>>◌, ◌∷◌,
}

-- A component of a path: a text, or digits read as a number.
pub data Component : Type 0 where
  key : String → Component
  position : ℕ → Component

pub data PathError : Type 0 where
  no_components : PathError
  out_of_range : PathError
  no_compatible_container : PathError
  no_container : PathError
  missing : PathError
  no_compatible_value : PathError

abbrev pub field_at : String → Fields → Option JsonValue
field_at k end = none
field_at k (field j v fields) = if j == k then some v else field_at k fields

abbrev pub replace_field : String → JsonValue → Fields → Fields
replace_field k v end = end
replace_field k v (field j w fields) =
    if j == k then field j v fields else field j w (replace_field k v fields)

abbrev pub item_at : ℕ → Items → Option JsonValue
item_at n nil = none
item_at zero (cons v items) = some v
item_at (suc n) (cons v items) = item_at n items

abbrev pub replace_item : ℕ → JsonValue → Items → Items
replace_item n v nil = nil
replace_item zero v (cons w items) = cons v items
replace_item (suc n) v (cons w items) = cons w (replace_item n v items)

-- `isinstance(child, (dict, list))`
abbrev pub is_container : JsonValue → Bool
is_container (arr items) = true
is_container (obj fields) = true
is_container _ = false

abbrev pub found_child : PathError → Option JsonValue → Result PathError JsonValue
found_child error none = err error
found_child error (some child) = if is_container child then ok child else err no_container

-- The container that a component of the path, not the last one, leads to.
abbrev pub child_of : Component → JsonValue → Result PathError JsonValue
child_of (key k) (obj fields) = found_child no_container (field_at k fields)
child_of (position n) (arr items) = found_child out_of_range (item_at n items)
child_of _ _ = err no_compatible_container

-- The container with another child at the component.
abbrev pub replace_child : Component → JsonValue → JsonValue → JsonValue
replace_child (key k) v (obj fields) = obj (replace_field k v fields)
replace_child (position n) v (arr items) = arr (replace_item n v items)
replace_child c v current = current

abbrev pub assigned : PathError → Option JsonValue → JsonValue → Result PathError JsonValue
assigned error none changed = err error
assigned error (some old) changed = ok changed

abbrev pub set_leaf : Component → JsonValue → JsonValue → Result PathError JsonValue
set_leaf (key k) v (obj fields) =
    assigned missing (field_at k fields) (replace_child (key k) v (obj fields))
set_leaf (position n) v (arr items) =
    assigned out_of_range (item_at n items) (replace_child (position n) v (arr items))
set_leaf _ _ _ = err no_compatible_value

unfoldable pub set_path : List Component → JsonValue → JsonValue → Result PathError JsonValue
set_path [] v current = err no_components
set_path (leaf ∷ []) v current = set_leaf leaf v current
set_path (component ∷ next ∷ path) v current = do
  child ← child_of component current
  changed ← set_path (next ∷ path) v child
  ok (replace_child component changed current)

-- ===== src/Matrix/Path/Tests.antt =====
-- The theorems about `_set_path` of src/ddsleuth/matrix.py at a small document.
use ddsleuth.Json.{JsonValue, arr, cons, end, field, int, nil, null, obj, str}
use ddsleuth.Matrix.Path.{Component, key, position, set_path}
use ddsleuth.Matrix.Path.Assignment.{IsAssigned, set_path-IsAssigned, set_path_there}
use ddsleuth.Prelude.{List, [], ok, pos, refl, ◌∷◌, ◌≡◌}

abbrev role_document : JsonValue → JsonValue
role_document offset = obj (
    field "roles" (arr (cons (obj (field "actor" (str "bob") (field "offset" offset end))) nil))
      end)

abbrev offset_path : List Component
offset_path = key "roles" ∷ position 0 ∷ key "offset" ∷ []

offset_is_set :
    set_path offset_path (int (pos 5)) (role_document null) ≡ ok (role_document (int (pos 5)))
unfolding set_path
offset_is_set = refl

set_path-IsAssigned_example :
    IsAssigned offset_path (int (pos 5)) (role_document null) (role_document (int (pos 5)))
set_path-IsAssigned_example =
    set_path-IsAssigned offset_path (int (pos 5)) (role_document null) (role_document (int (pos 5)))
      offset_is_set

set_path_there_example :
    (result : JsonValue) × (set_path offset_path (int (pos 5)) (role_document null) ≡ ok result)
set_path_there_example =
    set_path_there (key "roles") (position 0 ∷ key "offset" ∷ []) (int (pos 5)) (role_document null)
      null refl

-- ===== src/Matrix/Path/Assignment.antt =====
-- A value that `_set_path` of src/ddsleuth/matrix.py puts in a document is read back, and the rest
-- of the document is as before.
use ddsleuth.Json.{JsonValue, arr, obj}
use ddsleuth.Matrix.Path.{
  set_path, Component, PathError, child_of, is_container, key, position, replace_child, set_leaf,
}
use ddsleuth.Prelude.{
  Result, subst, ◌>>=◌, List, Option, [], ap, err, inl, inr, none, ok, refl, some, sym, true, ◌∙◌,
  ◌∷◌, ◌≡◌,
}
use ddsleuth.Matrix.Path.Containers.{
  Diverge, and_then, at-replace_child, at_component, child_of_ok, get_path, other-replace_child,
  set_leaf_ok,
}

-- The value is read back at the path, which led somewhere before, and every path that parts from it
-- leads where it led.
pub record IsAssigned (path : List Component) (v current result : JsonValue) : Type 0 where
  pub old : JsonValue
  pub was_there : get_path path current ≡ some old
  pub read_back : get_path path result ≡ some v
  pub unchanged :
      (other : List Component) → Diverge path other → get_path other result ≡ get_path other current

-- A round of the loop: the child, and what the rest of the path made of it.
bind_ok :
    (r : Result PathError JsonValue) (f : JsonValue → Result PathError JsonValue)
    (result : JsonValue)
    → (r >>= f) ≡ ok result
    → (x : JsonValue) × (r ≡ ok x) × (f x ≡ ok result)
bind_ok (ok x) f result h = (x, refl, h)
bind_ok (err e) f result h = cc

IsAssigned-leaf :
    (c : Component) (v current result : JsonValue)
    → set_leaf c v current ≡ ok result
    → IsAssigned (c ∷ []) v current result
IsAssigned-leaf c v current result h =
    let ((old, at), made) = set_leaf_ok c v current result h in
    record {
      old = old;
      was_there = ap (and_then (get_path [])) at;
      read_back =
          ap (λ r. get_path (c ∷ []) r) made
          ∙ ap (and_then (get_path [])) (at-replace_child c v old current at);
      unchanged = λ other d. kept other d made;
    }
  where
    kept :
        (other : List Component)
        → Diverge (c ∷ []) other
        → result ≡ replace_child c v current
        → get_path other result ≡ get_path other current
    kept [] d made = absurd d
    kept (e ∷ es) (inl apart) made =
        ap (λ r. get_path (e ∷ es) r) made
        ∙ ap (and_then (get_path es)) (other-replace_child c e v current apart)
    kept (e ∷ es) (inr (_, never)) made = absurd never

-- If the assignment returns, the value is read back at the path, which led somewhere before, and
-- every path that parts from it leads where it led.
pub set_path-IsAssigned :
    (path : List Component) (v current result : JsonValue)
    → set_path path v current ≡ ok result
    → IsAssigned path v current result
unfolding set_path
set_path-IsAssigned [] v current result h = cc
set_path-IsAssigned (leaf ∷ []) v current result h = IsAssigned-leaf leaf v current result h
set_path-IsAssigned (c ∷ next ∷ path) v current result h =
    let (child, found, later) = bind_ok (child_of c current) _ result h in
    let (changed, deeper, made) = bind_ok (set_path (next ∷ path) v child) _ result later in
    let (at, _) = child_of_ok c current child found in
    let same : result ≡ replace_child c changed current = cc in
    let below = set_path-IsAssigned (next ∷ path) v child changed deeper in
    record {
      old = below.old;
      was_there = ap (and_then (get_path (next ∷ path))) at ∙ below.was_there;
      read_back =
          ap (λ r. get_path (c ∷ next ∷ path) r) same
          ∙ ap (and_then (get_path (next ∷ path))) (at-replace_child c changed child current at)
          ∙ below.read_back;
      unchanged = λ other d. kept child changed same at below other d;
    }
  where
    kept :
        (child changed : JsonValue)
        → result ≡ replace_child c changed current
        → at_component c current ≡ some child
        → IsAssigned (next ∷ path) v child changed
        → (other : List Component) → Diverge (c ∷ next ∷ path) other
        → get_path other result ≡ get_path other current
    kept child changed same at below [] d = absurd d
    kept child changed same at below (e ∷ es) (inl apart) =
        ap (λ r. get_path (e ∷ es) r) same
        ∙ ap (and_then (get_path es)) (other-replace_child c e changed current apart)
    kept child changed same at below (e ∷ es) (inr (here, d)) =
        ap (λ r. get_path (e ∷ es) r) same
        ∙ subst
            (λ x.
              and_then (get_path es) (at_component x (replace_child c changed current))
              ≡ and_then (get_path es) (at_component x current))
            here
            (ap (and_then (get_path es)) (at-replace_child c changed child current at)
              ∙ below.unchanged es d
              ∙ sym (ap (and_then (get_path es)) at))

set_leaf_there :
    (c : Component) (v current old : JsonValue)
    → at_component c current ≡ some old
    → set_leaf c v current ≡ ok (replace_child c v current)
set_leaf_there (key k) v (obj fields) old h = rw h refl
set_leaf_there (position n) v (arr items) old h = rw h refl
set_leaf_there _ v _ old h = cc

container_of_path :
    (next : Component) (path : List Component) (child old : JsonValue)
    → get_path (next ∷ path) child ≡ some old
    → is_container child ≡ true
container_of_path (key k) path (obj fields) old h = refl
container_of_path (position n) path (arr items) old h = refl
container_of_path _ path _ old h = cc

child_of_there :
    (c : Component) (current child : JsonValue)
    → at_component c current ≡ some child
    → is_container child ≡ true
    → child_of c current ≡ ok child
child_of_there (key k) (obj fields) child h k' = rw h (rw k' refl)
child_of_there (position n) (arr items) child h k' = rw h (rw k' refl)
child_of_there _ _ child h k' = cc

step_of_path :
    (o : Option JsonValue) (f : JsonValue → Option JsonValue) (old : JsonValue)
    → and_then f o ≡ some old
    → (child : JsonValue) × (o ≡ some child) × (f child ≡ some old)
step_of_path none f old h = cc
step_of_path (some child) f old h = (child, refl, h)

-- A path of at least one component that leads somewhere in the document is assigned to.
pub set_path_there :
    (component : Component) (path : List Component) (v current old : JsonValue)
    → get_path (component ∷ path) current ≡ some old
    → (result : JsonValue) × (set_path (component ∷ path) v current ≡ ok result)
unfolding set_path
set_path_there c [] v current old h =
    let (child, at, _) = step_of_path (at_component c current) (get_path []) old h in
    (replace_child c v current, set_leaf_there c v current child at)
set_path_there c (next ∷ path) v current old h =
    let (child, at, further) =
      step_of_path (at_component c current) (get_path (next ∷ path)) old h in
    let entered =
      child_of_there c current child at (container_of_path next path child old further) in
    let (changed, deeper) = set_path_there next path v child old further in
    (
      replace_child c changed current,
      ap (λ r. r >>= λ x. set_path (next ∷ path) v x >>= λ y. ok (replace_child c y current))
            entered
          ∙ ap (λ r. r >>= λ y. ok (replace_child c y current)) deeper,
    )

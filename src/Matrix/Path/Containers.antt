-- ===== src/Matrix/Path/Containers.antt =====
-- What a path leads to in a document, and what the steps of `_set_path` change of it.
use ddsleuth.Json.{end, field, Fields, Items, JsonValue, arr, cons, nil, obj}
use ddsleuth.Matrix.Path.{
  Component, PathError, assigned, child_of, field_at, found_child, is_container, item_at, key,
  missing, no_container, out_of_range, position, replace_child, replace_field, replace_item,
  set_leaf,
}
use ddsleuth.Prelude.{
  Bool-cases, List, Option, String, [], ap, eq_iff, err, if◌then◌else◌, inl, inr, none, ok, refl,
  some, suc, sym, true, zero, ℕ, ◌==◌, ◌∙◌, ◌∷◌, ◌≡◌, ◌≢◌, ◌⊎◌,
}

-- What a component leads to in a value.
abbrev pub at_component : Component → JsonValue → Option JsonValue
at_component (key k) (obj fields) = field_at k fields
at_component (position n) (arr items) = item_at n items
at_component _ _ = none

abbrev pub and_then : (JsonValue → Option JsonValue) → Option JsonValue → Option JsonValue
and_then f none = none
and_then f (some v) = f v

-- What a path leads to in a document.
abbrev pub get_path : List Component → JsonValue → Option JsonValue
get_path [] v = some v
get_path (component ∷ path) v = and_then (get_path path) (at_component component v)

-- The paths part at some component.
abbrev pub Diverge : List Component → List Component → Type 0
Diverge (c ∷ cs) (d ∷ ds) = (c ≢ d) ⊎ ((c ≡ d) × Diverge cs ds)
Diverge _ _ = ⊥

field_at-replace :
    (k : String) (v old : JsonValue) (fields : Fields)
    → field_at k fields ≡ some old
    → field_at k (replace_field k v fields) ≡ some v
field_at-replace k v old end h = cc
field_at-replace k v old (field j w fields) h = elim (Bool-cases (j == k)) [
  | inl e ↦ rw e (rw e refl)
  | inr e ↦ rw e (rw e (field_at-replace k v old fields (rw e at h)))
]

field_at-other :
    (k l : String) (v : JsonValue) (fields : Fields)
    → k ≢ l
    → field_at l (replace_field k v fields) ≡ field_at l fields
field_at-other k l v end h = refl
field_at-other k l v (field j w fields) h = elim (Bool-cases (j == k)) [
  | inl e ↦ elim (Bool-cases (j == l)) [
    | inl f ↦ absurd (h (sym ((eq_iff j k).0 e) ∙ (eq_iff j l).0 f))
    | inr f ↦ rw e (rw f refl)
  ]
  | inr e ↦ rw e (ap (λ o. if j == l then some w else o) (field_at-other k l v fields h))
]

item_at-replace :
    (n : ℕ) (v old : JsonValue) (items : Items)
    → item_at n items ≡ some old
    → item_at n (replace_item n v items) ≡ some v
item_at-replace n v old nil h = cc
item_at-replace zero v old (cons w items) h = refl
item_at-replace (suc n) v old (cons w items) h = item_at-replace n v old items h

item_at-other :
    (n m : ℕ) (v : JsonValue) (items : Items)
    → n ≢ m
    → item_at m (replace_item n v items) ≡ item_at m items
item_at-other n m v nil h = refl
item_at-other zero zero v (cons w items) h = absurd (h refl)
item_at-other zero (suc m) v (cons w items) h = refl
item_at-other (suc n) zero v (cons w items) h = refl
item_at-other (suc n) (suc m) v (cons w items) h = item_at-other n m v items (λ e. h (ap suc e))

pub at-replace_child :
    (c : Component) (v old current : JsonValue)
    → at_component c current ≡ some old
    → at_component c (replace_child c v current) ≡ some v
at-replace_child (key k) v old (obj fields) h = field_at-replace k v old fields h
at-replace_child (position n) v old (arr items) h = item_at-replace n v old items h
at-replace_child _ v old _ h = cc

pub other-replace_child :
    (c d : Component) (v current : JsonValue)
    → c ≢ d
    → at_component d (replace_child c v current) ≡ at_component d current
other-replace_child (key k) (key l) v (obj fields) h =
    field_at-other k l v fields (λ e. h (ap key e))
other-replace_child (key k) (position m) v (obj fields) h = refl
other-replace_child (position n) (position m) v (arr items) h =
    item_at-other n m v items (λ e. h (ap position e))
other-replace_child (position n) (key l) v (arr items) h = refl
other-replace_child _ _ v _ h = refl

-- What a component of the path found, where it is not the last.
found_child_ok :
    (error : PathError) (o : Option JsonValue) (child : JsonValue)
    → found_child error o ≡ ok child
    → (o ≡ some child) × (is_container child ≡ true)
found_child_ok error none child h = cc
found_child_ok error (some v) child h = elim (Bool-cases (is_container v)) [
  | inl e ↦
      let held : ok v ≡ ok child = rw e at h in
      let same : v ≡ child = cc in (ap some same, rw same at e)
  | inr e ↦ let held : err no_container ≡ ok child = rw e at h in cc
]

pub child_of_ok :
    (c : Component) (current child : JsonValue)
    → child_of c current ≡ ok child
    → (at_component c current ≡ some child) × (is_container child ≡ true)
child_of_ok (key k) (obj fields) child h = found_child_ok no_container (field_at k fields) child h
child_of_ok (position n) (arr items) child h = found_child_ok out_of_range (item_at n items) child h
child_of_ok _ _ child h = cc

assigned_ok :
    (error : PathError) (o : Option JsonValue) (changed result : JsonValue)
    → assigned error o changed ≡ ok result
    → ((old : JsonValue) × (o ≡ some old)) × (result ≡ changed)
assigned_ok error none changed result h = cc
assigned_ok error (some old) changed result h = ((old, refl), cc)

pub set_leaf_ok :
    (c : Component) (v current result : JsonValue)
    → set_leaf c v current ≡ ok result
    → ((old : JsonValue) × (at_component c current ≡ some old))
      × (result ≡ replace_child c v current)
set_leaf_ok (key k) v (obj fields) result h = assigned_ok missing (field_at k fields) _ result h
set_leaf_ok (position n) v (arr items) result h =
    assigned_ok out_of_range (item_at n items) _ result h
set_leaf_ok _ v _ result h = cc

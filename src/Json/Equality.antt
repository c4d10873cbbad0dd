-- ===== src/Json/Equality.antt =====
-- Python's `==` on JSON values: numbers by value, dicts whatever their order.
use ddsleuth.Json.{
  Dict, Fields, Float, Items, JsonValue, arr, bool, cons, end, field, finite, float, infinity, int,
  lookup, nil, null, obj, of_fields, scale, str,
}
use ddsleuth.Prelude.{
  Bool, Option, eq_int, eq_nat, false, if◌then◌else◌, none, not, pos, some, suc, true, ℕ, ◌&&◌,
  ◌==◌,
}

-- The number that a bool, an int or a float is.
unfoldable pub as_number : JsonValue → Option Float
unfolding scale
as_number (bool b) = some (finite (scale (pos (if b then 1 else 0))))
as_number (int n) = some (finite (scale n))
as_number (float f) = some f
as_number _ = none

abbrev pub same_sign : Bool → Bool → Bool
same_sign true b = b
same_sign false b = not b

-- No number equals the one that is none.
abbrev pub same_number : Option Float → Option Float → Bool
same_number (some (finite z)) (some (finite w)) = eq_int z w
same_number (some (infinity b)) (some (infinity c)) = same_sign b c
same_number _ _ = false

abbrev pub size : Fields → ℕ
size end = 0
size (field k v fields) = suc (size fields)

unfoldable mutual
  pub equals : JsonValue → JsonValue → Bool
  equals null null = true
  equals (str s) (str t) = s == t
  equals (arr xs) (arr ys) = equal_items xs ys
  equals (obj fs) (obj gs) = eq_nat (size fs) (size gs) && equal_fields fs (of_fields gs)
  equals v w = same_number (as_number v) (as_number w)

  pub equal_items : Items → Items → Bool
  equal_items nil nil = true
  equal_items (cons v vs) (cons w ws) = equals v w && equal_items vs ws
  equal_items _ _ = false

  pub equal_fields : Fields → Dict JsonValue → Bool
  equal_fields end d = true
  equal_fields (field k v fs) d =
      (elim (lookup k d) [ none ↦ false | some w ↦ equals v w ]) && equal_fields fs d

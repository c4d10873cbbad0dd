-- ===== src/Json.antt =====
-- JSON values as Python holds them (`JsonValue` of src/ddsleuth/models.py), and mappings with
-- text keys. A dict is an association list in insertion order.
pub mod Equality
pub mod Numbers
use ddsleuth.Prelude.{
  suc, ◌-◌, ◌*◌, ◌^◌, String, ◌≡◌, refl, Bool, true, false, Option, none, some, List, [], ◌∷◌, ◌==◌,
  ℤ, pos, negsuc, eq_int, if◌then◌else◌, arith, eq_iff,
}

-- A finite double is a whole multiple of 2^-1074, and `finite` holds the multiplier.
-- `infinity true` is the positive infinity.
pub data Float : Type 0 where
  finite : ℤ → Float
  infinity : Bool → Float
  nan : Float

mutual
  pub data JsonValue : Type 0 where
    null : JsonValue
    bool : Bool → JsonValue
    int : ℤ → JsonValue
    float : Float → JsonValue
    str : String → JsonValue
    arr : Items → JsonValue
    obj : Fields → JsonValue

  pub data Items : Type 0 where
    nil : Items
    cons : JsonValue → Items → Items

  pub data Fields : Type 0 where
    end : Fields
    field : String → JsonValue → Fields → Fields

abbrev pub Dict {ℓ} : Type ℓ → Type ℓ
Dict V = List (String × V)

-- `list(items)` and `dict(fields)`, and back
unfoldable pub of_items : Items → List JsonValue
of_items nil = []
of_items (cons v vs) = v ∷ of_items vs

unfoldable pub to_items : List JsonValue → Items
to_items [] = nil
to_items (v ∷ vs) = cons v (to_items vs)

unfoldable pub of_fields : Fields → Dict JsonValue
of_fields end = []
of_fields (field k v fs) = (k, v) ∷ of_fields fs

unfoldable pub to_fields : Dict JsonValue → Fields
to_fields [] = end
to_fields ((k, v) ∷ d) = field k v (to_fields d)

pub of_items-to_items : (vs : List JsonValue) → of_items (to_items vs) ≡ vs
unfolding of_items to_items
of_items-to_items [] = refl
of_items-to_items (v ∷ vs) = ground (arith, of_items-to_items vs)

pub of_fields-to_fields : (d : Dict JsonValue) → of_fields (to_fields d) ≡ d
unfolding of_fields to_fields
of_fields-to_fields [] = refl
of_fields-to_fields ((k, v) ∷ d) = ground (arith, of_fields-to_fields d)

module _ {ℓ} {V : Type ℓ} where
  -- `d.get(k)`, with `none` for a missing key
  abbrev pub lookup : String → Dict V → Option V
  lookup k [] = none
  lookup k ((j, v) ∷ d) = if j == k then some v else lookup k d

  -- `d[k] = v`
  abbrev pub insert : String → V → Dict V → Dict V
  insert k v [] = (k, v) ∷ []
  insert k v ((j, w) ∷ d) = if j == k then (j, v) ∷ d else (j, w) ∷ insert k v d

  pub lookup-insert :
      (k j : String) (v : V) (d : Dict V)
      → lookup j (insert k v d) ≡ (if k == j then some v else lookup j d)
  lookup-insert k j v [] = refl
  lookup-insert k j v ((i, w) ∷ d) =
      ground (arith, eq_iff k j, eq_iff i k, eq_iff i j, lookup-insert k j v d)

abbrev or_null : Option JsonValue → JsonValue
or_null none = null
or_null (some v) = v

-- `d.get(k)` on JSON values, where a missing key and `null` are both Python's None
abbrev pub get : Dict JsonValue → String → JsonValue
get d k = or_null (lookup k d)

abbrev or_default : JsonValue → Option JsonValue → JsonValue
or_default v none = v
or_default v (some w) = w

-- `d.get(k, default)`, which keeps a `null` that is there
abbrev pub get_or : Dict JsonValue → String → JsonValue → JsonValue
get_or d k v = or_default v (lookup k d)

-- `isinstance(v, str)`, with the text
abbrev pub as_str : JsonValue → Option String
as_str (str s) = some s
as_str _ = none

abbrev pub is_str : JsonValue → Bool
is_str (str s) = true
is_str _ = false

abbrev pub is_null : JsonValue → Bool
is_null null = true
is_null _ = false

-- `v == s` for a text s
abbrev pub equals_str : JsonValue → String → Bool
equals_str (str t) s = t == s
equals_str _ s = false

-- `v is True`
abbrev pub is_true : JsonValue → Bool
is_true (bool b) = b
is_true _ = false

-- `isinstance(v, int)`, with the number: a bool is an int, False is 0 and True is 1
abbrev pub as_int : JsonValue → Option ℤ
as_int (bool b) = some (pos (if b then 1 else 0))
as_int (int n) = some n
as_int _ = none

-- `isinstance(v, int) and not isinstance(v, bool)`, with the number
abbrev pub as_plain_int : JsonValue → Option ℤ
as_plain_int (int n) = some n
as_plain_int _ = none

-- A whole number as the multiplier of 2^-1074.
unfoldable pub scale : ℤ → ℤ
scale (pos n) = pos (n * 2 ^ 1074)
scale (negsuc n) = negsuc (suc n * 2 ^ 1074 - 1)

-- `v == n` for an int n: Python compares bool, int and float by value.
abbrev pub equals_int : JsonValue → ℤ → Bool
equals_int (bool b) n = eq_int (pos (if b then 1 else 0)) n
equals_int (int m) n = eq_int m n
equals_int (float (finite z)) n = eq_int z (scale n)
equals_int _ n = false

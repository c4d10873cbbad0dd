-- ===== src/ScenarioParser/Values.antt =====
-- src/ddsleuth/scenario.py: its errors, and the checks of single values. Each `raise ScenarioError`
-- is a constructor of `ScenarioError` with the values that its message shows.
use ddsleuth.Semantics.Glob.{codes}
use ddsleuth.Json.{
  float, Dict, Float, JsonValue, arr, bool, get, int, null, obj, of_fields, of_items, str,
}
use ddsleuth.Json.Numbers.{float_of_int, lt_float, not_positive, zero_float}
use ddsleuth.Model.EventKind.{value}
use ddsleuth.Prelude.{
  Bool, List, Option, Result, String, [], any, eq_nat, err, false, if◌then◌else◌, leb, length, none,
  not, ok, pos, some, suc, true, ℕ, ◌&&◌, ◌>>=◌, ◌||◌, ◌∷◌,
}

-- The part of the document that a message names.
pub data Context : Type 0 where
  in_scenario in_implementation in_execution in_policy : Context
  in_participant in_identity in_permissions : String → Context
  in_assertion in_role : ℕ → Context
  -- `execution.roles[i].start_after[j]` and `execution.roles[i].actions[j]`
  in_barrier in_action : ℕ → ℕ → Context

pub data ScenarioError : Type 0 where
  schema_version_must_be_1 domain_id_out_of_range : ScenarioError
  -- `{context}.{key} must be a non-empty string`
  must_be_non_empty_string : Context → String → ScenarioError
  -- `{context}.{key} must be an array of strings`
  must_be_strings : Context → String → ScenarioError
  -- `{context} must be an object`, and `{context}.{key} must be an object`
  must_be_object : Context → ScenarioError
  entry_must_be_object : Context → String → ScenarioError
  -- `{context}.{key} must be a string`, or an array, a non-empty array, positive, non-negative
  must_be_string must_be_array must_be_non_empty must_be_positive must_be_non_negative :
      Context → String → ScenarioError
  needs_two_participants participant_must_be_object topic_must_be_object : ScenarioError
  unsafe_actor_name : String → ScenarioError
  expiry_out_of_range : String → ScenarioError
  grant_order_duplicates grant_order_incomplete : ScenarioError
  duplicate_assertion unknown_actor duplicate_role : String → ScenarioError
  environment_must_be_strings : ℕ → ScenarioError
  not_an_earlier_role : ℕ → ℕ → ScenarioError
  duplicate_action : String → String → ScenarioError
  unordered_actions : String → ScenarioError
  tabs_or_newlines : ℕ → ℕ → ScenarioError
  -- Python's OverflowError, from `float` of an int that no double is near
  int_too_large : ScenarioError

-- `str.isspace` of one character
abbrev is_space : ℕ → Bool
is_space c =
    leb 9 c && leb c 13
    || (leb 28 c && leb c 32
        || (eq_nat c 133
            || (eq_nat c 160
                || (eq_nat c 5760
                    || (leb 8192 c && leb c 8202
                        || (eq_nat c 8232
                            || (eq_nat c 8233
                                || (eq_nat c 8239 || (eq_nat c 8287 || eq_nat c 12288)))))))))

-- `not value.strip()`
unfoldable pub is_blank : String → Bool
is_blank value = not (any (λ c. not (is_space c)) (codes value))

pub non_empty_string : ScenarioError → JsonValue → Result ScenarioError String
unfolding is_blank
non_empty_string error (str value) = if is_blank value then err error else ok value
non_empty_string error _ = err error

unfoldable pub require_string : Dict JsonValue → String → Context → Result ScenarioError String
unfolding non_empty_string
require_string raw key context =
    non_empty_string (must_be_non_empty_string context key) (get raw key)

pub strings_of : ScenarioError → List JsonValue → Result ScenarioError (List String)
strings_of error [] = ok []
strings_of error (str value ∷ values) = do rest ← strings_of error values; ok (value ∷ rest)
strings_of error (_ ∷ values) = err error

unfoldable pub string_list : JsonValue → Context → String → Result ScenarioError (List String)
unfolding strings_of
string_list (arr items) context key = strings_of (must_be_strings context key) (of_items items)
string_list _ context key = err (must_be_strings context key)

-- `isinstance(value, Mapping)`, `isinstance(value, list)`, and an optional text
abbrev pub mapping : ScenarioError → JsonValue → Result ScenarioError (Dict JsonValue)
mapping error (obj fields) = ok (of_fields fields)
mapping error _ = err error

abbrev pub array : ScenarioError → JsonValue → Result ScenarioError (List JsonValue)
array error (arr items) = ok (of_items items)
array error _ = err error

abbrev pub optional_string : ScenarioError → JsonValue → Result ScenarioError (Option String)
optional_string error null = ok none
optional_string error (str value) = ok (some value)
optional_string error _ = err error

-- `float(value)` of a number that may be a bool, an int or a float
abbrev float_or_overflow : Option Float → Result ScenarioError Float
float_or_overflow none = err int_too_large
float_or_overflow (some x) = ok x

abbrev pub to_float : JsonValue → Result ScenarioError Float
to_float (bool b) = float_or_overflow (float_of_int (pos (if b then 1 else 0)))
to_float (int n) = float_or_overflow (float_of_int n)
to_float (float x) = ok x
to_float _ = err int_too_large

-- `isinstance(value, (int, float)) and not isinstance(value, bool) and not value < 0`
abbrev pub is_non_negative : JsonValue → Bool
is_non_negative (int (pos n)) = true
is_non_negative (float x) = not (lt_float x zero_float)
is_non_negative _ = false

-- `isinstance(value, (int, float)) and not value <= 0`: a bool is an int
abbrev pub is_positive : JsonValue → Bool
is_positive (bool b) = b
is_positive (int (pos (suc n))) = true
is_positive (float x) = not (not_positive x)
is_positive _ = false

-- `_ACTOR_NAME.fullmatch(name)`
abbrev is_alphanumeric : ℕ → Bool
is_alphanumeric c =
    leb b'A' c && leb c b'Z' || (leb b'a' c && leb c b'z' || leb b'0' c && leb c b'9')

abbrev is_name_character : ℕ → Bool
is_name_character c = is_alphanumeric c || (eq_nat c b'_' || (eq_nat c b'.' || eq_nat c b'-'))

abbrev matches_name : List ℕ → Bool
matches_name [] = false
matches_name (c ∷ cs) =
    is_alphanumeric c && (leb (length cs) 127 && not (any (λ d. not (is_name_character d)) cs))

unfoldable pub is_actor_name : String → Bool
is_actor_name name = matches_name (codes name)

-- `"\t" in value or "\n" in value or "\r" in value`
unfoldable pub breaks_line : String → Bool
breaks_line value = any (λ c. eq_nat c 9 || (eq_nat c 10 || eq_nat c 13)) (codes value)

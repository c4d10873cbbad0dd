-- ===== src/Trajectory/Causal/Retimed.antt =====
-- What becomes of an action that src/ddsleuth/trajectory.py gives another time.
use ddsleuth.Json.{
  Fields, Float, JsonValue, float, insert, lookup, lookup-insert, obj, of_fields,
  of_fields-to_fields, to_fields,
}
use ddsleuth.Prelude.{All, List, String, [], ap, arith, false, length, refl, some, ◌==◌, ◌∷◌, ◌≡◌}
use ddsleuth.Trajectory.Causal.{with_time, with_times}
use ddsleuth.Trajectory.Causal.Times.{IsMapping}

-- The result has the time, and all else as the action has it.
pub record IsRetimed (action : JsonValue) (time : Float) (result : JsonValue) : Type 0 where
  pub fields : Fields
  pub result_fields : Fields
  pub was : action ≡ obj fields
  pub is_now : result ≡ obj result_fields
  pub at_time : lookup "at_ms" (of_fields result_fields) ≡ some (float time)
  pub kept :
      (key : String)
      → ("at_ms" == key) ≡ false
      → lookup key (of_fields result_fields) ≡ lookup key (of_fields fields)

-- The actions one after the other, with the times one after the other.
pub data AreRetimed : List JsonValue → List Float → List JsonValue → Type 0 where
  no_more : AreRetimed [] [] []
  then_action :
      (action : JsonValue) (time : Float) (result : JsonValue) (actions : List JsonValue)
      (times : List Float) (results : List JsonValue)
      → IsRetimed action time result
      → AreRetimed actions times results
      → AreRetimed (action ∷ actions) (time ∷ times) (result ∷ results)

pub IsRetimed-with_time :
    (time : Float) (action : JsonValue)
    → IsMapping action
    → IsRetimed action time (with_time time action)
IsRetimed-with_time time action (fields, same) = record {
  fields = fields;
  result_fields = to_fields (insert "at_ms" (float time) (of_fields fields));
  was = same;
  is_now = ap (with_time time) same;
  at_time = rw of_fields-to_fields (rw lookup-insert refl);
  kept = λ key other. rw of_fields-to_fields (rw (lookup-insert, other) refl);
}

pub AreRetimed-with_times :
    (times : List Float) (actions : List JsonValue)
    → length times ≡ length actions
    → All IsMapping actions
    → AreRetimed actions times (with_times times actions)
AreRetimed-with_times [] [] same mappings = no_more
AreRetimed-with_times [] (action ∷ actions) same mappings = absurd (omega arith)
AreRetimed-with_times (time ∷ times) [] same mappings = absurd (omega arith)
AreRetimed-with_times (time ∷ times) (action ∷ actions) same (mapping, mappings) =
    then_action action time (with_time time action) actions times (with_times times actions)
      (IsRetimed-with_time time action mapping)
      (AreRetimed-with_times times actions (omega arith) mappings)

-- ===== src/Trajectory/Causal/Times.antt =====
-- Lemmas on the ids and times of a plan under the causal mutations of src/ddsleuth/trajectory.py.
use ddsleuth.Json.{
  float, Fields, Float, JsonValue, get, lookup-insert, null, obj, of_fields, of_fields-to_fields,
}
use ddsleuth.Json.Numbers.{lt_float}
use ddsleuth.Prelude.{
  from_ok, All, Bool-cases, List, Option-cases, String, [], ap, arith, if◌then◌else◌, inl, inr,
  insert_sorted, length, map, ok, refl, some, sorted, suc, ◌++◌, ◌==◌, ◌∙◌, ◌∷◌, ◌≡◌, ◌≤◌,
}
use ddsleuth.Trajectory.Causal.{
  from_scenario, id_value, insert_at, place_of, time_in, times_of, with_time,
}
use ddsleuth.Trajectory.Causal.Positions.{insert_at-after, insert_at-before}
use ddsleuth.ScenarioParser.Values.{to_float}

-- `action.get("at_ms")` of a mapping
abbrev pub at_ms_value : JsonValue → JsonValue
at_ms_value (obj fields) = get (of_fields fields) "at_ms"
at_ms_value _ = null

abbrev pub ids : List JsonValue → List JsonValue
ids actions = map id_value actions

abbrev pub placed : String → JsonValue → JsonValue → List JsonValue
placed relation action anchor =
    if relation == "before" then action ∷ anchor ∷ [] else anchor ∷ action ∷ []

abbrev pub IsMapping : JsonValue → Type 0
IsMapping v = (fields : Fields) × (v ≡ obj fields)

pub IsMapping-of_time : (v : JsonValue) (at_ms : JsonValue) → time_in v ≡ some at_ms → IsMapping v
IsMapping-of_time (obj fields) at_ms h = (fields, refl)
IsMapping-of_time _ at_ms h = cc

pub length-times_of :
    (actions : List JsonValue) (times : List Float)
    → times_of actions ≡ ok times
    → length times ≤ length actions
unfolding times_of
length-times_of [] times h = let empty : [] ≡ times = cc in rw (← empty) (omega arith)
length-times_of (action ∷ actions) times h = elim (Option-cases (time_in action)) [
  | inl untimed ↦
      let bound = length-times_of actions times (rw (untimed, times_of) at h) in omega arith
  | inr (at_ms, timed) ↦
      from_ok (from_scenario (to_float at_ms)) _ (rw (timed, times_of) at h) λ time read h1.
        from_ok (times_of actions) _ h1 λ rest more made.
          let bound = length-times_of actions rest more in
          let same : time ∷ rest ≡ times = cc in rw (← same) (omega arith)
]

pub all_mappings :
    (actions : List JsonValue) (times : List Float)
    → times_of actions ≡ ok times
    → length times ≡ length actions
    → All IsMapping actions
unfolding times_of
all_mappings [] times h e = tt
all_mappings (action ∷ actions) times h e = elim (Option-cases (time_in action)) [
  | inl untimed ↦
      let bound = length-times_of actions times (rw (untimed, times_of) at h) in
      absurd (omega arith)
  | inr (at_ms, timed) ↦
      from_ok (from_scenario (to_float at_ms)) _ (rw (timed, times_of) at h) λ time read h1.
        from_ok (times_of actions) _ h1 λ rest more made.
          let same : time ∷ rest ≡ times = cc in
          let longer : suc (length rest) ≡ suc (length actions) = rw (← same) at e in
          (IsMapping-of_time action at_ms timed, all_mappings actions rest more (omega arith))
]

pub at-with_time :
    (time : Float) (v : JsonValue) → IsMapping v → at_ms_value (with_time time v) ≡ float time
at-with_time time v (fields, e) = rw e (rw of_fields-to_fields (rw lookup-insert refl))

length-insert_sorted :
    (time : Float) (times : List Float)
    → length (insert_sorted lt_float time times) ≡ suc (length times)
length-insert_sorted time [] = refl
length-insert_sorted time (other ∷ times) = elim (Bool-cases (lt_float other time)) [
  | inl e ↦ rw e (ap suc (length-insert_sorted time times))
  | inr e ↦ rw e refl
]

pub length-sorted : (times : List Float) → length (sorted lt_float times) ≡ length times
length-sorted [] = refl
length-sorted (time ∷ times) =
    length-insert_sorted time (sorted lt_float times) ∙ ap suc (length-sorted times)

module _ {A : Type 0} (P : A → Type 0) where
  pub All-append : (xs ys : List A) → All P xs → All P ys → All P (xs ++ ys)
  All-append [] ys ps qs = qs
  All-append (x ∷ xs) ys (p, ps) qs = (p, All-append xs ys ps qs)

  pub All-append_cases : (xs ys : List A) → All P (xs ++ ys) → All P xs × All P ys
  All-append_cases [] ys ps = (tt, ps)
  All-append_cases (x ∷ xs) ys (p, ps) =
      let (left, right) = All-append_cases xs ys ps in ((p, left), right)

pub inserted :
    (relation : String) (xs : List JsonValue) (action anchor : JsonValue) (ys : List JsonValue)
    → insert_at (place_of relation (length xs)) action (xs ++ anchor ∷ ys)
      ≡ xs ++ (placed relation action anchor ++ ys)
inserted relation xs action anchor ys = elim (Bool-cases (relation == "before")) [
  | inl e ↦ rw e (insert_at-before xs action (anchor ∷ ys))
  | inr e ↦ rw e (insert_at-after xs action anchor ys)
]

pub All-placed :
    (relation : String) (action anchor : JsonValue)
    → IsMapping action
    → IsMapping anchor
    → All IsMapping (placed relation action anchor)
All-placed relation action anchor p q = elim (Bool-cases (relation == "before")) [
  | inl e ↦ rw e (p, (q, tt))
  | inr e ↦ rw e (q, (p, tt))
]

pub length-placed :
    (relation : String) (action anchor : JsonValue) → length (placed relation action anchor) ≡ 2
length-placed relation action anchor = elim (Bool-cases (relation == "before")) [
  | inl e ↦ rw e refl
  | inr e ↦ rw e refl
]

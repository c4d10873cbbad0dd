-- ===== src/Trajectory/Schedule/Ordered.antt =====
-- Shifted plans of src/ddsleuth/trajectory.py stay in the order of their times.
use ddsleuth.Json.{Fields, get_or, Float, JsonValue, get, int, obj, of_fields}
use ddsleuth.Json.Numbers.{add_float, zero_float}
use ddsleuth.Prelude.{
  Result, eq_nat, eq_nat_iff, err, if◌then◌else◌, none, ℤ, ◌%◌, ◌⊎◌, Bool-cases, List, String, [],
  arith, from_ok, inl, inr, ok, ok-injective, pos, refl, subst, suc, sym, ℕ, ◌∷◌, ◌≡◌,
}
use ddsleuth.ScenarioParser.Values.{ScenarioError, to_float}
use ddsleuth.Trajectory.Causal.{
  TrajectoryError, from_scenario, is_boundary_operation, time_in, is_number, with_time,
}
use ddsleuth.Trajectory.Causal.Times.{IsMapping, at-with_time, at_ms_value}
use ddsleuth.Trajectory.Descriptors.{TrajectoryDescriptor}
use ddsleuth.Trajectory.Schedule.{jittered, negated, offset_for, max_float, shift_actions, shifted}
use ddsleuth.Trajectory.Causal.Retimed.{IsRetimed, IsRetimed-with_time}
use ddsleuth.Trajectory.Schedule.Later.{
  NotBefore, TimesFrom, last_time, max_float-not_before, no_time,
}

ok_of_from_scenario {ℓ} :
    {A : Type ℓ} (r : Result ScenarioError A) (x : A)
    → ◌≡◌ {A = Result TrajectoryError A} (from_scenario r) (ok x)
    → r ≡ ok x
ok_of_from_scenario (ok y) x h = cc
ok_of_from_scenario (err e) x h = cc

-- A number is put one way, the other way, or nowhere, by the remainder of a byte by 3.
abbrev pub IsDirected : ℕ → ℤ → ℤ → Type 0
IsDirected byte jitter moved =
    ((byte % 3 ≡ 0) × (moved ≡ negated jitter))
    ⊎ ((byte % 3 ≡ 1) × (moved ≡ pos 0))
    ⊎ ((byte % 3 ≡ 2) × (moved ≡ jitter))

IsDirected-jittered : (byte : ℕ) (jitter : ℤ) → IsDirected byte jitter (jittered byte jitter)
IsDirected-jittered byte jitter = elim (Bool-cases (eq_nat (byte % 3) 0)) [
  | inl e ↦ rw e (inl ((eq_nat_iff _ _).0 e, refl))
  | inr e ↦ elim (Bool-cases (eq_nat (byte % 3) 1)) [
    | inl f ↦ rw (e, f) (inr (inl ((eq_nat_iff _ _).0 f, refl)))
    | inr f ↦ rw (e, f) (inr (inr (ground arith, refl)))
  ]
]

module _ (first_byte : String → JsonValue → ℕ) (actor : String)
    (descriptor : TrajectoryDescriptor) where
  -- The time of an action at the index, moved by the jitter and by the offset of a boundary
  -- operation, but not below 0.
  pub record IsMoved (index : ℕ) (action : JsonValue) (moved : Float) : Type 0 where
    pub fields : Fields
    pub is_mapping : action ≡ obj fields
    pub time : Float
    pub timed : to_float (get (of_fields fields) "at_ms") ≡ ok time
    pub jitter_ms : ℤ
    pub directed :
        IsDirected
          (first_byte actor (get_or (of_fields fields) "id" (int (pos index))))
          descriptor.action_jitter_ms
          jitter_ms
    pub jitter : Float
    pub jitter_read : to_float (int jitter_ms) ≡ ok jitter
    pub offset : Float
    pub offset_read :
        to_float (
          int (
            if is_boundary_operation (get (of_fields fields) "operation")
            then descriptor.boundary_offset_ms
            else pos 0))
        ≡ ok offset
    pub comes_to : moved ≡ max_float zero_float (add_float (add_float time jitter) offset)

  -- An action without a time is left as it is. Any other has its moved time, or the last time ahead
  -- of it if that is later, and is otherwise as it was.
  pub data AreShifted : ℕ → Float → List JsonValue → List JsonValue → Type 0 where
    none_left : (index : ℕ) (previous : Float) → AreShifted index previous [] []
    then_untimed :
        (index : ℕ) (previous : Float) (action : JsonValue) (actions results : List JsonValue)
        → time_in action ≡ none
        → AreShifted (suc index) previous actions results
        → AreShifted index previous (action ∷ actions) (action ∷ results)
    then_timed :
        (index : ℕ) (previous moved : Float) (action result : JsonValue)
        (actions results : List JsonValue)
        → IsMoved index action moved
        → IsRetimed action (max_float previous moved) result
        → AreShifted (suc index) (max_float previous moved) actions results
        → AreShifted index previous (action ∷ actions) (result ∷ results)

  abbrev Shifts : ℕ → Float → List JsonValue → List JsonValue → Type 0
  Shifts index previous actions result =
      AreShifted index previous actions result × TimesFrom previous result

  IsMoved-shifted :
      (index : ℕ) (fields : Fields) (moved : Float)
      → shifted first_byte actor descriptor index
          (of_fields fields)
          (get (of_fields fields) "at_ms")
        ≡ ok moved
      → IsMoved index (obj fields) moved
  unfolding shifted
  IsMoved-shifted index fields moved h =
      let at_ms = get (of_fields fields) "at_ms" in
      let byte = first_byte actor (get_or (of_fields fields) "id" (int (pos index))) in
      let jitter_ms = jittered byte descriptor.action_jitter_ms in
      let offset_ms =
        offset_for descriptor.boundary_offset_ms (get (of_fields fields) "operation") in
      from_ok (from_scenario (to_float at_ms)) _ h λ time read h1.
        from_ok (from_scenario (to_float (int jitter_ms))) _ h1 λ jitter read_jitter h2.
          from_ok (from_scenario (to_float (int offset_ms))) _ h2 λ offset read_offset made.
            record {
              fields = fields;
              is_mapping = refl;
              time = time;
              timed = ok_of_from_scenario (to_float at_ms) time read;
              jitter_ms = jitter_ms;
              directed = IsDirected-jittered byte descriptor.action_jitter_ms;
              jitter = jitter;
              jitter_read = ok_of_from_scenario (to_float (int jitter_ms)) jitter read_jitter;
              offset = offset;
              offset_read = ok_of_from_scenario (to_float (int offset_ms)) offset read_offset;
              comes_to = sym (ok-injective _ moved made);
            }

  left_alone :
      (index : ℕ) (previous : Float) (action : JsonValue) (actions rest : List JsonValue)
      → time_in action ≡ none
      → NotBefore previous (at_ms_value action)
        × (last_time previous (at_ms_value action) ≡ previous)
      → Shifts (suc index) previous actions rest
      → Shifts index previous (action ∷ actions) (action ∷ rest)
  left_alone index previous action actions rest untimed (says_nothing, same) (shifted, ordered) = (
    then_untimed index previous action actions rest untimed shifted,
    (says_nothing, rw same ordered),
  )

  timed :
      (index : ℕ) (previous moved : Float) (action : JsonValue) (actions rest : List JsonValue)
      → IsMoved index action moved
      → Shifts (suc index) (max_float previous moved) actions rest
      → Shifts index previous
          (action ∷ actions)
          (with_time (max_float previous moved) action ∷ rest)
  timed index previous moved action actions rest is_moved (shifted, ordered) =
      let time = max_float previous moved in
      let mapping : IsMapping action = (is_moved.fields, is_moved.is_mapping) in
      let at = at-with_time time action mapping in
      (
        then_timed index previous moved action (with_time time action) actions rest is_moved
            (IsRetimed-with_time time action mapping) shifted,
        (
          subst (NotBefore previous) (sym at) (max_float-not_before previous moved),
          subst (λ v. TimesFrom (last_time previous v) rest) (sym at) ordered,
        ),
      )

  -- If the times of a plan are shifted, an action without a time is left as it is, and of any other
  -- only the time is changed: it is moved by the jitter, in a direction that the action's name gives,
  -- and by the offset if the operation is a boundary, not below 0 and not before the last time ahead
  -- of it. So no action is timed before the given time, nor before the last action ahead of it that
  -- has a time.
  pub shift_actions-TimesFrom :
      (index : ℕ) (previous : Float) (actions result : List JsonValue)
      → shift_actions first_byte actor descriptor index previous actions ≡ ok result
      → AreShifted index previous actions result × TimesFrom previous result
  unfolding shift_actions
  shift_actions-TimesFrom index previous [] result h =
      subst (Shifts index previous []) (ok-injective [] result h) (none_left index previous, tt)
  shift_actions-TimesFrom index previous (obj fields ∷ actions) result h =
      elim (Bool-cases (is_number (get (of_fields fields) "at_ms"))) [
        | inl number ↦
            from_ok
              (shifted first_byte actor descriptor index (of_fields fields)
                (get (of_fields fields) "at_ms"))
              _ (rw (number, shift_actions) at h)
              λ moved made h1.
                from_ok
                  (shift_actions first_byte actor descriptor (suc index) (max_float previous moved)
                    actions)
                  _ h1
                  λ rest more h2.
                    subst (Shifts index previous (obj fields ∷ actions)) (ok-injective _ result h2)
                      (timed index previous moved (obj fields) actions rest
                        (IsMoved-shifted index fields moved made)
                        (shift_actions-TimesFrom (suc index) (max_float previous moved) actions rest
                          more))
        | inr no_number ↦
            from_ok (shift_actions first_byte actor descriptor (suc index) previous actions) _
              (rw (no_number, shift_actions) at h)
              λ rest more h2.
                subst (Shifts index previous (obj fields ∷ actions)) (ok-injective _ result h2) (
                  left_alone index previous (obj fields) actions rest (rw no_number refl)
                    (no_time previous _ no_number)
                    (shift_actions-TimesFrom (suc index) previous actions rest more))
      ]
  shift_actions-TimesFrom index previous (action ∷ actions) result h =
      from_ok (shift_actions first_byte actor descriptor (suc index) previous actions) _ h
        λ rest more h2.
          subst (Shifts index previous (action ∷ actions)) (ok-injective _ result h2) (
            left_alone index previous action actions rest refl (tt, refl)
              (shift_actions-TimesFrom (suc index) previous actions rest more))

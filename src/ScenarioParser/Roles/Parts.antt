-- ===== src/ScenarioParser/Roles/Parts.antt =====
-- What the parts of a role that src/ddsleuth/scenario.py accepts promise: its actions and barriers.
use ddsleuth.Json.{end, get, get_or, nil, Float, JsonValue, arr, obj}
use ddsleuth.Json.Numbers.{lt_float}
use ddsleuth.Model.{EventBarrier, RoleAction}
use ddsleuth.Prelude.{
  from_guard, from_ok, ok-injective, any, not, All, List, Memᴰ, String, [], false, map,
  none_pass_iff, not-true, ok, subst, suc, ℕ, ◌∷◌, ◌≡◌,
}
use ddsleuth.ScenarioParser.Participants.{contains}
use ddsleuth.ScenarioParser.Roles.{actions_from, barriers_from, parse_action, parse_barrier}
use ddsleuth.ScenarioParser.Values.{
  duplicate_action, entry_must_be_object, in_action, in_barrier, is_non_negative, mapping,
  must_be_non_negative, must_be_object, must_be_string, not_an_earlier_role, optional_string,
  require_string, string_list, tabs_or_newlines, to_float, unordered_actions, breaks_line,
}
use ddsleuth.ScenarioParser.WellFormed.{AllDistinct, InOrder, IsAction}
use ddsleuth.ScenarioParser.Checks.{
  AllDistinct-cons, Apart, float_of_non_negative, mem_of_contains, not_mem_of_contains,
  require_string-not_blank,
}

abbrev Fits : List String → Float → RoleAction → Type 0
Fits action_ids previous action =
    IsAction action
    × (¬ Memᴰ action.action_id action_ids)
    × (lt_float action.at_ms previous ≡ false)

parse_action-Fits :
    (actor : String) (role_index : ℕ) (action_ids : List String) (previous : Float) (index : ℕ)
    (raw : JsonValue) {action : RoleAction}
    → parse_action actor role_index action_ids previous index raw ≡ ok action
    → Fits action_ids previous action
unfolding parse_action
parse_action-Fits actor role_index action_ids previous index raw h =
    from_ok (mapping (must_be_object (in_action role_index index)) raw) _ h λ entries _ h1.
      from_ok (require_string entries "id" (in_action role_index index)) _ h1
        λ action_id read_id h2.
          from_guard (not (contains action_ids action_id)) (duplicate_action actor action_id) _ h2
            λ new h3.
              from_guard (is_non_negative (get entries "at_ms"))
                (must_be_non_negative (in_action role_index index) "at_ms") _ h3
                λ non_negative h4.
                  from_ok (to_float (get entries "at_ms")) _ h4 λ at_ms read_time h5.
                    from_guard (not (lt_float at_ms previous)) (unordered_actions actor) _ h5
                      λ later h6.
                        from_ok (require_string entries "operation" (in_action role_index index)) _
                          h6
                          λ operation read_operation h7.
                            from_ok
                              (string_list (get_or entries "arguments" (arr nil))
                                (in_action role_index index) "arguments")
                              _ h7
                              λ arguments _ h8.
                                from_guard
                                  (not (any breaks_line (action_id ∷ operation ∷ arguments)))
                                  (tabs_or_newlines role_index index) _ h8
                                  λ clean made.
                                    subst (Fits action_ids previous) (ok-injective _ _ made) (
                                      record {
                                        identified =
                                            require_string-not_blank _ _ _ action_id read_id;
                                        operates =
                                            require_string-not_blank _ _ _ operation read_operation;
                                        not_before_start =
                                            float_of_non_negative _ at_ms non_negative read_time;
                                        on_one_line =
                                            (none_pass_iff breaks_line (λ text. (λ e. e, λ e. e))
                                                (action_id ∷ operation ∷ arguments)).0
                                              (not-true _ clean);
                                      },
                                      not_mem_of_contains action_ids action_id (not-true _ new),
                                      not-true _ later,
                                    )

abbrev ids : List RoleAction → List String
ids actions = map (λ (action : RoleAction). action.action_id) actions

abbrev IsPlan : List String → Float → List RoleAction → Type 0
IsPlan action_ids previous actions =
    (AllDistinct (ids actions) × Apart action_ids (ids actions))
    × InOrder previous actions
    × All IsAction actions

pub actions_from-IsPlan :
    (actor : String) (role_index : ℕ) (action_ids : List String) (previous : Float) (index : ℕ)
    (raws : List JsonValue) {actions : List RoleAction}
    → actions_from actor role_index action_ids previous index raws ≡ ok actions
    → IsPlan action_ids previous actions
unfolding actions_from
actions_from-IsPlan actor role_index action_ids previous index [] h =
    subst (IsPlan action_ids previous) (ok-injective [] _ h) ((tt, λ x m. elim m [ ]), tt, tt)
actions_from-IsPlan actor role_index action_ids previous index (raw ∷ raws) h =
    from_ok (parse_action actor role_index action_ids previous index raw) _ h λ first read h1.
      from_ok
        (actions_from actor role_index (first.action_id ∷ action_ids) first.at_ms (suc index) raws)
        _ h1
        λ rest more made.
          let (valid, new, later) =
            parse_action-Fits actor role_index action_ids previous index raw read in
          let (apart, in_order, all_valid) =
            actions_from-IsPlan actor role_index (first.action_id ∷ action_ids) first.at_ms
              (suc index) raws more in
          subst (IsPlan action_ids previous) (ok-injective (first ∷ rest) _ made) (
            AllDistinct-cons action_ids first.action_id (ids rest) new apart,
            (later, in_order),
            (valid, all_valid),
          )

abbrev pub OfEarlier : List String → List EventBarrier → Type 0
OfEarlier seen barriers = All (λ (barrier : EventBarrier). Memᴰ barrier.actor seen) barriers

parse_barrier-earlier :
    (seen : List String) (role_index index : ℕ) (raw : JsonValue) {barrier : EventBarrier}
    → parse_barrier seen role_index index raw ≡ ok barrier
    → Memᴰ barrier.actor seen
unfolding parse_barrier
parse_barrier-earlier seen role_index index raw h =
    from_ok (mapping (must_be_object (in_barrier role_index index)) raw) _ h λ entries _ h1.
      from_ok (require_string entries "actor" (in_barrier role_index index)) _ h1 λ actor _ h2.
        from_guard (contains seen actor) (not_an_earlier_role role_index index) _ h2 λ earlier h3.
          from_ok (require_string entries "kind" (in_barrier role_index index)) _ h3 λ kind _ h4.
            from_ok
              (optional_string (must_be_string (in_barrier role_index index) "outcome")
                (get entries "outcome"))
              _ h4
              λ outcome _ h5.
                from_ok
                  (mapping (entry_must_be_object (in_barrier role_index index) "attributes")
                    (get_or entries "attributes" (obj end)))
                  _ h5
                  λ attributes _ made.
                    subst (λ (barrier : EventBarrier). Memᴰ barrier.actor seen)
                      (ok-injective _ _ made) (mem_of_contains seen actor earlier)

pub barriers_from-earlier :
    (seen : List String) (role_index index : ℕ) (raws : List JsonValue)
    {barriers : List EventBarrier}
    → barriers_from seen role_index index raws ≡ ok barriers
    → OfEarlier seen barriers
unfolding barriers_from
barriers_from-earlier seen role_index index [] h = subst (OfEarlier seen) (ok-injective [] _ h) (tt)
barriers_from-earlier seen role_index index (raw ∷ raws) h =
    from_ok (parse_barrier seen role_index index raw) _ h λ first read h1.
      from_ok (barriers_from seen role_index (suc index) raws) _ h1 λ rest more made.
        subst (OfEarlier seen) (ok-injective (first ∷ rest) _ made) (
          parse_barrier-earlier seen role_index index raw read,
          barriers_from-earlier seen role_index (suc index) raws more,
        )

-- ===== src/ScenarioParser/Roles/Guarantees.antt =====
-- What the loops over roles, barriers and actions in `parse_scenario` of src/ddsleuth/scenario.py
-- guarantee.
use ddsleuth.Json.{
  end, get, get_or, int, nil, of_fields, Dict, Float, JsonValue, arr, null, obj, of_items,
}
use ddsleuth.Json.Numbers.{zero_float}
use ddsleuth.Model.{ExecutionSpec, ParticipantSpec, RoleAction, RoleCommand}
use ddsleuth.Prelude.{
  from_guard, from_ok, ok-injective, not, pos, All, List, Memᴰ, Option, String, [], false, map,
  non_empty, none, not-true, ok, refl, subst, suc, true, ℕ, ◌∷◌, ◌≡◌,
}
use ddsleuth.ScenarioParser.Participants.{contains, keys}
use ddsleuth.ScenarioParser.Roles.{
  environment_from, actions_from, barriers_from, before_all, parse_execution, parse_role,
  parse_roles, roles_from, some_roles,
}
use ddsleuth.ScenarioParser.Values.{
  array, duplicate_role, environment_must_be_strings, in_execution, in_role, is_non_negative,
  is_positive, mapping, must_be_array, must_be_non_empty, must_be_non_negative, must_be_object,
  must_be_positive, require_string, string_list, to_float, unknown_actor,
}
use ddsleuth.ScenarioParser.WellFormed.{
  AllDistinct, ExecutesRightly, InOrder, IsAction, IsRole, WaitsForEarlier,
}
use ddsleuth.ScenarioParser.Checks.{
  AllDistinct-cons, Apart, float_of_non_negative, mem_of_contains, not_mem_of_contains,
}
use ddsleuth.ScenarioParser.Roles.Parts.{OfEarlier, actions_from-IsPlan, barriers_from-earlier}

-- No time that is not negative comes before the start, whatever the first bound was.
InOrder-from_start :
    (previous : Float) (actions : List RoleAction)
    → InOrder previous actions
    → All IsAction actions
    → InOrder zero_float actions
InOrder-from_start previous [] in_order valid = tt
InOrder-from_start previous (first ∷ actions) (_, later) (valid, _) =
    (valid.not_before_start, later)

abbrev FitsRole : Dict ParticipantSpec → List String → RoleCommand → Type 0
FitsRole participants seen role =
    IsRole participants role × (¬ Memᴰ role.actor seen) × OfEarlier seen role.start_after

parse_role-FitsRole :
    (participants : Dict ParticipantSpec) (seen : List String) (index : ℕ) (raw : JsonValue)
    {role : RoleCommand}
    → parse_role participants seen index raw ≡ ok role
    → FitsRole participants seen role
unfolding parse_role
parse_role-FitsRole participants seen index raw h =
    from_ok (mapping (must_be_object (in_role index)) raw) _ h λ entries _ h1.
      from_ok (require_string entries "actor" (in_role index)) _ h1 λ actor _ h2.
        from_guard (contains (keys participants) actor) (unknown_actor actor) _ h2 λ known h3.
          from_guard (not (contains seen actor)) (duplicate_role actor) _ h3 λ new h4.
            from_ok (string_list (get entries "command") (in_role index) "command") _ h4
              λ command _ h5.
                from_guard (non_empty command) (must_be_non_empty (in_role index) "command") _ h5
                  λ commanded h6.
                    from_ok
                      (environment_from (environment_must_be_strings index)
                        (get_or entries "environment" (obj end)))
                      _ h6
                      λ environment _ h7.
                        from_ok
                          (array (must_be_array (in_role index) "start_after")
                            (get_or entries "start_after" (arr nil)))
                          _ h7
                          λ barriers_raw _ h8.
                            from_ok (barriers_from seen index 0 barriers_raw) _ h8
                              λ barriers read_barriers h9.
                                from_guard
                                  (is_non_negative (get_or entries "start_offset_ms" (int (pos 0))))
                                  (must_be_non_negative (in_role index) "start_offset_ms") _ h9
                                  λ non_negative h10.
                                    from_ok
                                      (array (must_be_array (in_role index) "actions")
                                        (get_or entries "actions" (arr nil)))
                                      _ h10
                                      λ actions_raw _ h11.
                                        from_ok
                                          (actions_from actor index [] before_all 0 actions_raw) _
                                          h11
                                          λ actions read_actions h12.
                                            from_ok
                                              (to_float
                                                (get_or entries "start_offset_ms" (int (pos 0))))
                                              _ h12
                                              λ start_offset_ms read_offset made.
                                                let (apart, in_order, valid) =
                                                  actions_from-IsPlan _ _ _ _ _ actions_raw
                                                    read_actions in
                                                subst (FitsRole participants seen)
                                                  (ok-injective _ _ made)
                                                  (
                                                    record {
                                                      of_participant =
                                                          mem_of_contains (keys participants) actor
                                                            known;
                                                      commanded = commanded;
                                                      not_early =
                                                          float_of_non_negative _ start_offset_ms
                                                            non_negative read_offset;
                                                      distinct_actions = apart.0;
                                                      in_order =
                                                          InOrder-from_start before_all actions
                                                            in_order valid;
                                                      valid_actions = valid;
                                                    },
                                                    not_mem_of_contains seen actor (not-true _ new),
                                                    barriers_from-earlier seen index 0 barriers_raw
                                                        read_barriers,
                                                  )

abbrev actors : List RoleCommand → List String
actors roles = map (λ (role : RoleCommand). role.actor) roles

abbrev AreRoles : Dict ParticipantSpec → List String → List RoleCommand → Type 0
AreRoles participants seen roles =
    (AllDistinct (actors roles) × Apart seen (actors roles))
    × All (IsRole participants) roles
    × WaitsForEarlier seen roles

roles_from-AreRoles :
    (participants : Dict ParticipantSpec) (seen : List String) (index : ℕ) (raws : List JsonValue)
    {roles : List RoleCommand}
    → roles_from participants seen index raws ≡ ok roles
    → AreRoles participants seen roles × (non_empty roles ≡ non_empty raws)
unfolding roles_from
roles_from-AreRoles participants seen index [] h =
    subst (λ roles. AreRoles participants seen roles × (non_empty roles ≡ false))
      (ok-injective [] _ h) (((tt, λ x m. elim m [ ]), tt, tt), refl)
roles_from-AreRoles participants seen index (raw ∷ raws) h =
    from_ok (parse_role participants seen index raw) _ h λ first read h1.
      from_ok (roles_from participants (first.actor ∷ seen) (suc index) raws) _ h1 λ rest more made.
        let (valid, new, earlier) = parse_role-FitsRole participants seen index raw read in
        let ((apart, all_valid, causal), _) =
          roles_from-AreRoles participants (first.actor ∷ seen) (suc index) raws more in
        subst (λ roles. AreRoles participants seen roles × (non_empty roles ≡ true))
          (ok-injective (first ∷ rest) _ made)
          (
            (
              AllDistinct-cons seen first.actor (actors rest) new apart,
              (valid, all_valid),
              (earlier, causal),
            ),
            refl,
          )

parse_roles-AreRoles :
    (participants : Dict ParticipantSpec) (value : JsonValue) {roles : List RoleCommand}
    → parse_roles participants value ≡ ok roles
    → AreRoles participants [] roles × (non_empty roles ≡ true)
unfolding parse_roles
parse_roles-AreRoles participants (arr items) h = from_items (of_items items) h
  where
    from_items :
        (raws : List JsonValue) {roles : List RoleCommand}
        → some_roles participants raws ≡ ok roles
        → AreRoles participants [] roles × (non_empty roles ≡ true)
    from_items [] h = cc
    from_items (raw ∷ raws) h = roles_from-AreRoles participants [] 0 (raw ∷ raws) h
parse_roles-AreRoles participants _ h = cc

pub parse_execution-ExecutesRightly :
    (participants : Dict ParticipantSpec) (value : JsonValue) {execution : Option ExecutionSpec}
    → parse_execution participants value ≡ ok execution
    → ExecutesRightly participants execution
unfolding parse_execution
parse_execution-ExecutesRightly participants null h =
    subst (ExecutesRightly participants) (ok-injective none _ h) (tt)
parse_execution-ExecutesRightly participants (obj fields) h =
    from_ok (require_string (of_fields fields) "network" in_execution) _ h λ network _ h1.
      from_guard (is_positive (get_or (of_fields fields) "timeout_seconds" (int (pos 60))))
        (must_be_positive in_execution "timeout_seconds") _ h1
        λ _ h2.
          from_ok (require_string (of_fields fields) "log_format" in_execution) _ h2
            λ log_format _ h3.
              from_ok (parse_roles participants (get (of_fields fields) "roles")) _ h3
                λ roles read h4.
                  from_ok (to_float (get_or (of_fields fields) "timeout_seconds" (int (pos 60)))) _
                    h4
                    λ timeout_seconds _ made.
                      let ((apart, valid, causal), some_roles) =
                        parse_roles-AreRoles participants _ read in
                      subst (ExecutesRightly participants) (ok-injective _ _ made) (record {
                        some_roles = some_roles;
                        distinct_actors = apart.0;
                        valid_roles = valid;
                        causal = causal;
                      })
parse_execution-ExecutesRightly participants _ h = cc

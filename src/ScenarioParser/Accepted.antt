-- ===== src/ScenarioParser/Accepted.antt =====
-- `parse_scenario` of src/ddsleuth/scenario.py returns well-formed scenarios only.
use ddsleuth.Json.{Dict, JsonValue, arr, as_int, end, equals_int, get, get_or, obj, of_items}
use ddsleuth.Model.{AssertionSpec, Scenario}
use ddsleuth.Model.EventKind.{value}
use ddsleuth.Prelude.{
  from_guard, from_ok, ok-injective, Bool-cases, List, Memᴰ, Option, String, [], arith, err, false,
  inl, inr, ltb, map, negsuc, non_empty, none, not, not-true, ok, pos, refl, some, subst, suc, true,
  ℕ, ℤ, ◌∷◌, ◌≡◌, ◌≤◌,
}
use ddsleuth.ScenarioParser.{
  assertions_from, in_domain_range, parse_assertion, parse_assertions, parse_domain_id,
  parse_scenario, parse_topics, some_assertions,
}
use ddsleuth.ScenarioParser.Participants.{contains, parse_grant_order, parse_participants}
use ddsleuth.ScenarioParser.Participants.Guarantees.{
  parse_grant_order-GrantsAll, parse_participants-AreParticipants,
}
use ddsleuth.ScenarioParser.Roles.{parse_execution}
use ddsleuth.ScenarioParser.Roles.Guarantees.{parse_execution-ExecutesRightly}
use ddsleuth.ScenarioParser.Values.{
  domain_id_out_of_range, duplicate_assertion, entry_must_be_object, in_assertion,
  in_implementation, in_scenario, mapping, must_be_object, must_be_string, optional_string,
  require_string, schema_version_must_be_1,
}
use ddsleuth.ScenarioParser.WellFormed.{AllDistinct, IsWellFormed}
use ddsleuth.ScenarioParser.Checks.{
  AllDistinct-cons, Apart, not_mem_of_contains, require_string-not_blank,
}

parse_assertion-new :
    (assertion_ids : List String) (index : ℕ) (assertion_raw : JsonValue)
    {assertion : AssertionSpec}
    → parse_assertion assertion_ids index assertion_raw ≡ ok assertion
    → ¬ Memᴰ assertion.assertion_id assertion_ids
unfolding parse_assertion
parse_assertion-new assertion_ids index assertion_raw h =
    from_ok (mapping (must_be_object (in_assertion index)) assertion_raw) _ h λ raw _ h1.
      from_ok (require_string raw "id" (in_assertion index)) _ h1 λ assertion_id _ h2.
        from_guard (not (contains assertion_ids assertion_id)) (duplicate_assertion assertion_id) _
          h2
          λ new h3. from_ok (require_string raw "oracle" (in_assertion index)) _ h3 λ oracle _ h4.
            from_ok
              (mapping (entry_must_be_object (in_assertion index) "parameters")
                (get_or raw "parameters" (obj end)))
              _ h4
              λ parameters _ made.
                subst (λ (assertion : AssertionSpec). ¬ Memᴰ assertion.assertion_id assertion_ids)
                  (ok-injective _ _ made)
                  (not_mem_of_contains assertion_ids assertion_id (not-true _ new))

abbrev ids : List AssertionSpec → List String
ids assertions = map (λ (assertion : AssertionSpec). assertion.assertion_id) assertions

abbrev AreAssertions : List String → List AssertionSpec → Type 0
AreAssertions seen assertions = AllDistinct (ids assertions) × Apart seen (ids assertions)

assertions_from-AreAssertions :
    (seen : List String) (index : ℕ) (raws : List JsonValue) {assertions : List AssertionSpec}
    → assertions_from seen index raws ≡ ok assertions
    → AreAssertions seen assertions × (non_empty assertions ≡ non_empty raws)
unfolding assertions_from
assertions_from-AreAssertions seen index [] h =
    subst (λ assertions. AreAssertions seen assertions × (non_empty assertions ≡ false))
      (ok-injective [] _ h) ((tt, λ x m. elim m [ ]), refl)
assertions_from-AreAssertions seen index (raw ∷ raws) h =
    from_ok (parse_assertion seen index raw) _ h λ first read h1.
      from_ok (assertions_from (first.assertion_id ∷ seen) (suc index) raws) _ h1 λ rest more made.
        let (apart, _) =
          assertions_from-AreAssertions (first.assertion_id ∷ seen) (suc index) raws more in
        subst (λ assertions. AreAssertions seen assertions × (non_empty assertions ≡ true))
          (ok-injective (first ∷ rest) _ made)
          (
            AllDistinct-cons seen first.assertion_id (ids rest)
                (parse_assertion-new seen index raw read) apart,
            refl,
          )

parse_assertions-AreAssertions :
    (value : JsonValue) {assertions : List AssertionSpec}
    → parse_assertions value ≡ ok assertions
    → AreAssertions [] assertions × (non_empty assertions ≡ true)
unfolding parse_assertions
parse_assertions-AreAssertions (arr items) h = from_items (of_items items) h
  where
    from_items :
        (raws : List JsonValue) {assertions : List AssertionSpec}
        → some_assertions raws ≡ ok assertions
        → AreAssertions [] assertions × (non_empty assertions ≡ true)
    from_items [] h = cc
    from_items (raw ∷ raws) h = assertions_from-AreAssertions [] 0 (raw ∷ raws) h
parse_assertions-AreAssertions _ h = cc

domain_in_range :
    (value : JsonValue) {domain_id : ℤ}
    → parse_domain_id value ≡ ok domain_id
    → (n : ℕ) × (domain_id ≡ pos n) × (n ≤ 232)
unfolding parse_domain_id
domain_in_range value h = from_int (as_int value) h
  where
    from_int :
        (o : Option ℤ) {domain_id : ℤ}
        → in_domain_range o ≡ ok domain_id
        → (n : ℕ) × (domain_id ≡ pos n) × (n ≤ 232)
    from_int none h = cc
    from_int (some (negsuc n)) h = cc
    from_int (some (pos n)) h = elim (Bool-cases (ltb 232 n)) [
      | inl e ↦ let failed : err domain_id_out_of_range ≡ ok _ = rw e at h in cc
      | inr e ↦ let made : ok (pos n) ≡ ok _ = rw e at h in (n, cc, ground arith)
    ]

-- A scenario that `parse_scenario` returns is well formed. Its id and title are not blank and its
-- domain is between 0 and 232. Each participant stands under its own name, which is one for a
-- file, once, with a role that is not blank. The grant order lists each participant once. There
-- are assertions, no two with the same id. If it has an execution, that has roles, no two of one
-- actor, each of a participant, with a command and a start that is not negative, and waiting for
-- events of earlier roles only; the actions of a role have distinct ids, are not before the start,
-- none is timed before the one ahead of it, and their texts fit on one line.
pub parse_scenario-IsWellFormed :
    (canonical_digest : Dict JsonValue → String) (raw : Dict JsonValue) (scenario : Scenario)
    → parse_scenario canonical_digest raw ≡ ok scenario
    → IsWellFormed scenario
unfolding parse_scenario
parse_scenario-IsWellFormed canonical_digest raw scenario h =
    from_guard (equals_int (get raw "schema_version") (pos 1)) schema_version_must_be_1 _ h λ _ h1.
      from_ok (require_string raw "id" in_scenario) _ h1 λ scenario_id read_id h2.
        from_ok (require_string raw "title" in_scenario) _ h2 λ title read_title h3.
          from_ok (mapping (must_be_object in_implementation) (get raw "implementation")) _ h3
            λ implementation_raw _ h4.
              from_ok (require_string implementation_raw "name" in_implementation) _ h4 λ name _ h5.
                from_ok
                  (optional_string (must_be_string in_implementation "version")
                    (get implementation_raw "version"))
                  _ h5
                  λ version _ h6.
                    from_ok (parse_domain_id (get raw "domain_id")) _ h6 λ domain_id read_domain h7.
                      from_ok (parse_participants (get raw "participants")) _ h7
                        λ participants read_participants h8.
                          from_ok (parse_grant_order raw participants) _ h8
                            λ grant_order read_order h9.
                              from_ok
                                (mapping (entry_must_be_object in_scenario "governance")
                                  (get_or raw "governance" (obj end)))
                                _ h9
                                λ governance _ h10.
                                  from_ok
                                    (mapping (entry_must_be_object in_scenario "topics")
                                      (get_or raw "topics" (obj end)))
                                    _ h10
                                    λ topics_raw _ h11.
                                      from_ok (parse_topics topics_raw) _ h11 λ topics _ h12.
                                        from_ok (parse_assertions (get raw "assertions")) _ h12
                                          λ assertions read_assertions h13.
                                            from_ok
                                              (parse_execution participants (get raw "execution")) _
                                              h13
                                              λ execution read_execution made.
                                                let (named, distinct_names) =
                                                  parse_participants-AreParticipants _
                                                    read_participants in
                                                let (distinct_grants, grants_all) =
                                                  parse_grant_order-GrantsAll raw participants
                                                    distinct_names read_order in
                                                let ((distinct_ids, _), some_assertion) =
                                                  parse_assertions-AreAssertions _
                                                    read_assertions in
                                                subst IsWellFormed (ok-injective _ _ made) (record {
                                                  identified =
                                                      require_string-not_blank _ _ _ scenario_id
                                                        read_id;
                                                  titled =
                                                      require_string-not_blank _ _ _ title
                                                        read_title;
                                                  in_domain =
                                                      domain_in_range (get raw "domain_id")
                                                        read_domain;
                                                  named = named;
                                                  distinct_names = distinct_names;
                                                  distinct_grants = distinct_grants;
                                                  grants_all = grants_all;
                                                  some_assertion = some_assertion;
                                                  distinct_assertions = distinct_ids;
                                                  executes =
                                                      parse_execution-ExecutesRightly participants _
                                                        read_execution;
                                                })

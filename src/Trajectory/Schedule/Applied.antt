-- ===== src/Trajectory/Schedule/Applied.antt =====
-- What becomes of a document to which src/ddsleuth/trajectory.py applies a schedule.
use ddsleuth.Json.{
  of_fields-to_fields, of_items-to_items, to_fields, to_items, Dict, JsonValue, arr, bool,
  equals_str, float, get, insert, int, lookup, lookup-insert, null, obj, of_items, str,
}
use ddsleuth.Oracles.Base.{equals_str_eq}
use ddsleuth.Prelude.{
  and-true, ap, collect, collect_complete, from_guard, ok_of_or_error, or_error, position_of, ◌&&◌,
  Bool-cases, List, Memᴰ, Option-cases, String, [], arith, eq_iff, false, from_ok, if◌then◌else◌,
  inl, inr, none, ok, ok-injective, refl, some, subst, suc, sym, ℕ, ◌==◌, ◌∙◌, ◌∷◌, ◌≡◌,
}
use ddsleuth.Trajectory.Descriptors.{TrajectoryDescriptor}
use ddsleuth.Trajectory.Schedule.{
  actor_of, apply_schedule, as_array, as_object, schedule_roles, role_of, schedule_actions,
  schedule_role, times_int, with_actions, without,
}
use ddsleuth.Reduction.Plans.{dicts, roles, roles_in, roles_of_execution}
use ddsleuth.ScenarioParser.Checks.{included_mem}
use ddsleuth.Trajectory.Causal.{order_differs}
use ddsleuth.ScenarioParser.Participants.{included}

lookup-without :
    (k j : String) (d : Dict JsonValue)
    → lookup j (without k d) ≡ (if k == j then none else lookup j d)
lookup-without k j [] = ground arith
lookup-without k j ((i, w) ∷ d) =
    ground (arith, eq_iff k j, eq_iff i k, eq_iff i j, lookup-without k j d)

-- A role starts at its rank, waits for nothing if barriers are relaxed, may have other actions, and
-- is otherwise the role that it was.
abbrev pub FromRole : TrajectoryDescriptor → ℕ → Dict JsonValue → Dict JsonValue → Type 0
FromRole descriptor rank role result =
    (lookup "start_offset_ms" result ≡ some (int (times_int rank descriptor.spacing_ms)))
    × (lookup "start_after" result
        ≡ (if descriptor.barrier_mode == "relaxed" then none else lookup "start_after" role))
    × ((key : String)
        → ("actions" == key) ≡ false
        → ("start_offset_ms" == key) ≡ false
        → ("start_after" == key) ≡ false
        → lookup key result ≡ lookup key role)

-- The roles are those of the actors of the order, one after the other, from the given rank.
pub data InOrder (descriptor : TrajectoryDescriptor) (found : List (Dict JsonValue))
    : ℕ → List String → List (Dict JsonValue) → Type 0 where
  no_more : (rank : ℕ) → InOrder descriptor found rank [] []
  then_role :
      (rank : ℕ) (actor : String) (order : List String) (role result : Dict JsonValue)
      (results : List (Dict JsonValue))
      → Memᴰ role found
      → get role "actor" ≡ str actor
      → FromRole descriptor rank role result
      → InOrder descriptor found (suc rank) order results
      → InOrder descriptor found rank (actor ∷ order) (result ∷ results)

role_of-there :
    (actor : String) (found : List (Dict JsonValue)) (role : Dict JsonValue)
    → role_of actor found ≡ some role
    → Memᴰ role found × (get role "actor" ≡ str actor)
role_of-there actor [] role h = cc
role_of-there actor (other ∷ found) role h = elim (Option-cases (role_of actor found)) [
  | inr (later, there) ↦
      let same : some later ≡ some role = rw (there, role_of) at h in
      let same' : later ≡ role = cc in
      let (m, acts) = role_of-there actor found later there in
      (
        Memᴰ.tail (subst (λ r. Memᴰ r found) same' m),
        subst (λ (r : Dict JsonValue). get r "actor" ≡ str actor) same' acts,
      )
  | inl nowhere ↦ elim (Bool-cases (equals_str (get other "actor") actor)) [
    | inl here ↦
        let same : some other ≡ some role = rw (nowhere, here, role_of) at h in
        let same' : other ≡ role = cc in
        (
          Memᴰ.head (sym same'),
          subst (λ (r : Dict JsonValue). get r "actor" ≡ str actor) same' (equals_str_eq _ _ here),
        )
    | inr another ↦ let missing : none ≡ some role = rw (nowhere, another, role_of) at h in cc
  ]
]

module _ (first_byte : String → JsonValue → ℕ) (actor : String)
    (descriptor : TrajectoryDescriptor) where
  with_actions-keeps :
      (role : Dict JsonValue) (v : JsonValue) (result : Dict JsonValue)
      → with_actions first_byte actor descriptor role v ≡ ok result
      → (key : String) → ("actions" == key) ≡ false
      → lookup key result ≡ lookup key role
  with_actions-keeps role (arr items) result h key other =
      from_ok (schedule_actions first_byte actor descriptor (of_items items)) _ h λ actions made h1.
        subst (λ (d : Dict JsonValue). lookup key d ≡ lookup key role) (ok-injective _ result h1)
          (rw (lookup-insert, other) refl)
  with_actions-keeps role null result h key other = cc
  with_actions-keeps role (bool b) result h key other = cc
  with_actions-keeps role (int n) result h key other = cc
  with_actions-keeps role (float x) result h key other = cc
  with_actions-keeps role (str s) result h key other = cc
  with_actions-keeps role (obj fields) result h key other = cc

  schedule_role-FromRole :
      (rank : ℕ) (role result : Dict JsonValue)
      → schedule_role first_byte actor descriptor rank role ≡ ok result
      → FromRole descriptor rank role result
  unfolding schedule_role
  schedule_role-FromRole rank role result h =
      elim (Bool-cases (descriptor.barrier_mode == "relaxed")) [
        | inl relaxed ↦
            let started =
              insert "start_offset_ms" (int (times_int rank descriptor.spacing_ms)) role in
            let released = without "start_after" started in
            let kept =
              with_actions-keeps released (get released "actions") result (rw relaxed at h) in
            (
              kept "start_offset_ms" refl ∙ rw (lookup-without, lookup-insert) refl,
              rw relaxed (kept "start_after" refl ∙ rw lookup-without refl),
              λ key a b c. kept key a ∙ rw (lookup-without, c, lookup-insert, b) refl,
            )
        | inr preserved ↦
            let started =
              insert "start_offset_ms" (int (times_int rank descriptor.spacing_ms)) role in
            let kept =
              with_actions-keeps started (get started "actions") result (rw preserved at h) in
            (
              kept "start_offset_ms" refl ∙ rw lookup-insert refl,
              rw preserved (kept "start_after" refl ∙ rw lookup-insert refl),
              λ key a b c. kept key a ∙ rw (lookup-insert, b) refl,
            )
      ]

module _ (first_byte : String → JsonValue → ℕ) (descriptor : TrajectoryDescriptor) where
  schedule_roles-InOrder :
      (rank : ℕ) (order : List String) (found : List (Dict JsonValue)) (result : List JsonValue)
      → schedule_roles first_byte descriptor rank order found ≡ ok result
      → InOrder descriptor found rank order (dicts result)
  unfolding schedule_roles dicts
  schedule_roles-InOrder rank [] found result h =
      subst (λ rs. InOrder descriptor found rank [] (dicts rs)) (ok-injective [] result h)
        (no_more rank)
  schedule_roles-InOrder rank (actor ∷ order) found result h =
      from_ok (or_error order_differs (role_of actor found)) _ h λ role there h1.
        from_ok (schedule_role first_byte actor descriptor rank role) _ h1 λ scheduled made h2.
          from_ok (schedule_roles first_byte descriptor (suc rank) order found) _ h2 λ rest more h3.
            let (m, acts) = role_of-there actor found role (ok_of_or_error _ _ role there) in
            subst (λ rs. InOrder descriptor found rank (actor ∷ order) (dicts rs))
              (ok-injective _ result h3)
              (rw of_fields-to_fields (
                then_role rank actor order role scheduled (dicts rest) m acts
                  (schedule_role-FromRole first_byte actor descriptor rank role scheduled made)
                  (schedule_roles-InOrder (suc rank) order found rest more)))

  roles_in_execution :
      (raw execution : Dict JsonValue) (values : List JsonValue)
      → as_object first_byte descriptor (get raw "execution") ≡ ok execution
      → as_array first_byte descriptor (get execution "roles") ≡ ok values
      → roles raw ≡ dicts values
  unfolding roles
  roles_in_execution raw execution values h1 h2 = through (get raw "execution") h1
    where
      in_array :
          (v : JsonValue) → as_array first_byte descriptor v ≡ ok values → roles_in v ≡ dicts values
      in_array (arr items) h = ap dicts (ok-injective _ values h)
      in_array null h = cc
      in_array (bool b) h = cc
      in_array (int n) h = cc
      in_array (float x) h = cc
      in_array (str s) h = cc
      in_array (obj fields) h = cc

      through :
          (v : JsonValue)
          → as_object first_byte descriptor v ≡ ok execution
          → roles_of_execution v ≡ dicts values
      through (obj fields) h =
          subst (λ (d : Dict JsonValue). roles_in (get d "roles") ≡ dicts values)
            (sym (ok-injective _ execution h)) (in_array (get execution "roles") h2)
      through null h = cc
      through (bool b) h = cc
      through (int n) h = cc
      through (float x) h = cc
      through (str s) h = cc
      through (arr items) h = cc

  roles_put :
      (raw execution : Dict JsonValue) (scheduled : List JsonValue)
      → roles (
          insert "execution"
            (obj (to_fields (insert "roles" (arr (to_items scheduled)) execution)))
            raw)
        ≡ dicts scheduled
  unfolding roles
  roles_put raw execution scheduled =
      rw lookup-insert (rw of_fields-to_fields (rw lookup-insert (rw of_items-to_items refl)))

  in_actors :
      (found : List (Dict JsonValue)) (actor : String) (role : Dict JsonValue)
      → Memᴰ role found
      → get role "actor" ≡ str actor
      → Memᴰ actor (collect actor_of 0 found)
  in_actors found actor role m acts =
      let (i, there, below) = position_of found m in
      collect_complete actor_of 0 found i there (rw acts refl)

  -- If a schedule is applied to a document, its actors are those of the roles of the document, its
  -- roles come in the order of the schedule, each with the start of its place, with nothing to wait
  -- for if barriers are relaxed, and in all but its actions as a role of that actor was; and nothing
  -- but the execution is changed.
  pub apply_schedule-InOrder :
      (raw result : Dict JsonValue)
      → apply_schedule first_byte descriptor raw ≡ ok result
      → InOrder descriptor (roles raw) 0 descriptor.order (roles result)
        × ((role : Dict JsonValue) (actor : String)
            → Memᴰ role (roles raw)
            → get role "actor" ≡ str actor
            → Memᴰ actor descriptor.order)
        × ((key : String) → ("execution" == key) ≡ false → lookup key result ≡ lookup key raw)
  unfolding apply_schedule
  apply_schedule-InOrder raw result h =
      from_ok (as_object first_byte descriptor (get raw "execution")) _ h λ execution at h1.
        from_ok (as_array first_byte descriptor (get execution "roles")) _ h1 λ values held h2.
          let actors = collect actor_of 0 (dicts values) in
          from_guard (included actors descriptor.order && included descriptor.order actors)
            order_differs _ h2
            λ same h3.
              from_ok (schedule_roles first_byte descriptor 0 descriptor.order (dicts values)) _ h3
                λ scheduled made h4.
                  let here = roles_in_execution raw execution values at held in
                  let all_actors = (and-true _ _ same).0 in
                  subst
                    (λ (d : Dict JsonValue).
                      InOrder descriptor (roles raw) 0 descriptor.order (roles d)
                      × ((role : Dict JsonValue) (actor : String)
                          → Memᴰ role (roles raw)
                          → get role "actor" ≡ str actor
                          → Memᴰ actor descriptor.order)
                      × ((key : String)
                          → ("execution" == key) ≡ false
                          → lookup key d ≡ lookup key raw))
                    (ok-injective _ result h4)
                    (rw (here, roles_put raw execution scheduled)
                      (
                        schedule_roles-InOrder 0 descriptor.order (dicts values) scheduled made,
                        λ role actor m acts.
                            included_mem actors descriptor.order all_actors
                              (in_actors (dicts values) actor role m acts),
                        λ key other. rw (lookup-insert, other) refl,
                      ))

-- ===== src/Trajectory/Inferred/Crossings.antt =====
-- The loop of `_causal_action_mutations` of src/ddsleuth/trajectory.py over the actions of a role.
use ddsleuth.Json.{Dict, JsonValue, get, str}
use ddsleuth.Prelude.{
  append_assoc, arith, length-append, map_mem, mem_append_left, ◌∙◌, All, Bool, Bool-cases, List,
  Memᴰ, Option, Result, String, [], ap, eq_refl, err, inl, inr, length, mem_append_right, none, ok,
  ok-injective, refl, some, subst, suc, sym, true, ℕ, ◌++◌, ◌==◌, ◌>>=◌, ◌||◌, ◌∷◌, ◌≡◌, ◌⊎◌,
}
use ddsleuth.Reduction.Plans.{roles}
use ddsleuth.Trajectory.Causal.{
  CausalActionMutation, TrajectoryError, first_position, insert_at, is_causal_boundary_operation,
  place_of, remove_at,
}
use ddsleuth.Trajectory.Causal.Times.{All-append, ids}
use ddsleuth.Trajectory.Descriptors.{same_texts}
use ddsleuth.Trajectory.Inferred.{
  infer_actions, Inference, PlannedAction, cross, cross_after, cross_before, has_order, ids_of,
  mutation_of, planned_in,
}

-- The mutation takes one of two adjacent actions across the other, and that one is a boundary.
pub record IsAdjacent (actor : String) (planned : List PlannedAction) (m : CausalActionMutation)
    : Type 0 where
  pub before : List PlannedAction
  pub first : PlannedAction
  pub second : PlannedAction
  pub after : List PlannedAction
  pub whole : planned ≡ before ++ first ∷ second ∷ after
  pub crosses :
      ((m ≡ mutation_of actor "before" second first)
        × (is_causal_boundary_operation second.operation ≡ true))
      ⊎ ((m ≡ mutation_of actor "after" first second)
          × (is_causal_boundary_operation first.operation ≡ true))

-- The mutation is of adjacent actions of a role of the document, all of whose actions have an id
-- and an operation.
pub record IsInferred (raw : Dict JsonValue) (m : CausalActionMutation) : Type 0 where
  pub role : Dict JsonValue
  pub there : Memᴰ role (roles raw)
  pub acts : get role "actor" ≡ str m.actor
  pub planned : List PlannedAction
  pub plans : planned_in (get role "actions") ≡ some planned
  pub adjacent : IsAdjacent m.actor planned m

first_position_there :
    (test : String → Bool) (x : String) (xs : List String)
    → Memᴰ x xs
    → test x ≡ true
    → (i : ℕ) × (first_position test xs ≡ some i)
first_position_there test x [] m h = elim m [ ]
first_position_there test x (y ∷ xs) (Memᴰ.head e) h =
    let passes : test y ≡ true = subst (λ z. test z ≡ true) e h in rw passes (0, refl)
first_position_there test x (y ∷ xs) (Memᴰ.tail m) h = elim (Bool-cases (test y)) [
  | inl passes ↦ rw passes (0, refl)
  | inr fails ↦ let (i, at) = first_position_there test x xs m h in rw (fails, at) (suc i, refl)
]

module _ (P : CausalActionMutation → Type 0) where
  -- The inference goes on to the end, and the mutations that it has found are right.
  abbrev pub Ends : Result TrajectoryError Inference → Type 0
  Ends r = (found : Inference) × (r ≡ ok found) × All P found.mutations

  pub then-Ends :
      (r : Result TrajectoryError Inference) (f : Inference → Result TrajectoryError Inference)
      → Ends r
      → ((found : Inference) → All P found.mutations → Ends (f found))
      → Ends (r >>= f)
  then-Ends (ok found) f (other, same, right) next =
      next found
        (subst (λ (x : Inference). All P x.mutations) (sym (ok-injective found other same)) right)
  then-Ends (err error) f (other, same, right) next = cc

  cross-Ends :
      (actor : String) (ids : List String) (index : ℕ) (relation : String)
      (action anchor : PlannedAction) (found : Inference)
      → Memᴰ anchor.id (remove_at index ids)
      → P (mutation_of actor relation action anchor)
      → All P found.mutations
      → Ends (cross actor ids index relation action anchor found)
  unfolding cross
  cross-Ends actor ids index relation action anchor found m right all =
      let rest = remove_at index ids in
      let (target, at) =
        first_position_there (λ id. id == anchor.id) anchor.id rest m (eq_refl anchor.id) in
      let reordered = insert_at (place_of relation target) action.id rest in
      rw at
        (elim (Bool-cases
          (has_order found.resulting_orders (actor, reordered) || same_texts reordered ids)) [
            | inl known ↦ rw known (found, refl, all)
            | inr new ↦ rw new (_, refl, All-append P found.mutations (_ ∷ []) all (right, tt))
          ])

  module _ (actor : String) (planned : List PlannedAction)
      (adjacent : (m : CausalActionMutation) → IsAdjacent actor planned m → P m) where
    -- The action ahead is the last of those ahead.
    abbrev IsLast : Option PlannedAction → List PlannedAction → Type 0
    IsLast none before = before ≡ []
    IsLast (some action) before = (us : List PlannedAction) × (before ≡ us ++ action ∷ [])

    left_at :
        (before : List PlannedAction) (action : PlannedAction) (after : List PlannedAction)
        → planned ≡ before ++ action ∷ after
        → remove_at (length before) (ids_of planned) ≡ ids_of before ++ ids_of after
    left_at before action after whole =
        subst (λ p. remove_at (length before) (ids_of p) ≡ ids_of before ++ ids_of after)
          (sym whole) (left_of before)
      where
        left_of :
            (us : List PlannedAction)
            → remove_at (length us) (ids_of (us ++ action ∷ after)) ≡ ids_of us ++ ids_of after
        left_of [] = refl
        left_of (u ∷ us) = ap (λ rest. u.id ∷ rest) (left_of us)

    before-Ends :
        (index : ℕ) (previous : Option PlannedAction) (before : List PlannedAction)
        (action : PlannedAction) (rest : List PlannedAction) (found : Inference)
        → planned ≡ before ++ action ∷ rest
        → index ≡ length before
        → IsLast previous before
        → is_causal_boundary_operation action.operation ≡ true
        → All P found.mutations
        → Ends (cross_before actor (ids_of planned) index previous action found)
    unfolding cross_before
    before-Ends index none before action rest found whole place last boundary all =
        (found, refl, all)
    before-Ends index (some anchor) before action rest found whole place (us, last) boundary all =
        cross-Ends actor (ids_of planned) index "before" action anchor found
          (subst (λ i. Memᴰ anchor.id (remove_at i (ids_of planned))) (sym place)
            (subst (Memᴰ anchor.id) (sym (left_at before action rest whole)) (
              mem_append_left (ids_of before) (ids_of rest) (
                subst (λ bs. Memᴰ anchor.id (ids_of bs)) (sym last)
                  (map_mem (λ (p : PlannedAction). p.id) (us ++ anchor ∷ [])
                    (mem_append_right us (anchor ∷ []) (Memᴰ.head refl)))))))
          (adjacent _ (record {
            before = us;
            first = anchor;
            second = action;
            after = rest;
            whole =
                whole
                ∙ ap (λ bs. bs ++ action ∷ rest) last
                ∙ append_assoc us (anchor ∷ []) (action ∷ rest);
            crosses = inl (refl, boundary);
          }))
          all

    after-Ends :
        (index : ℕ) (before : List PlannedAction) (action : PlannedAction)
        (rest : List PlannedAction) (found : Inference)
        → planned ≡ before ++ action ∷ rest
        → index ≡ length before
        → is_causal_boundary_operation action.operation ≡ true
        → All P found.mutations
        → Ends (cross_after actor (ids_of planned) index action rest found)
    unfolding cross_after
    after-Ends index before action [] found whole place boundary all = (found, refl, all)
    after-Ends index before action (anchor ∷ rest) found whole place boundary all =
        cross-Ends actor (ids_of planned) index "after" action anchor found
          (subst (λ i. Memᴰ anchor.id (remove_at i (ids_of planned))) (sym place)
            (subst (Memᴰ anchor.id) (sym (left_at before action (anchor ∷ rest) whole))
              (mem_append_right (ids_of before) (ids_of (anchor ∷ rest)) (Memᴰ.head refl))))
          (adjacent _ (record {
            before = before;
            first = action;
            second = anchor;
            after = rest;
            whole = whole;
            crosses = inr (refl, boundary);
          }))
          all

    pub infer_actions-Ends :
        (index : ℕ) (previous : Option PlannedAction) (before rest : List PlannedAction)
        (found : Inference)
        → planned ≡ before ++ rest
        → index ≡ length before
        → IsLast previous before
        → All P found.mutations
        → Ends (infer_actions actor (ids_of planned) index previous rest found)
    unfolding infer_actions
    infer_actions-Ends index previous before [] found whole place last all = (found, refl, all)
    infer_actions-Ends index previous before (action ∷ rest) found whole place last all =
        let longer = before ++ action ∷ [] in
        let whole' : planned ≡ longer ++ rest =
          whole ∙ sym (append_assoc before (action ∷ []) rest) in
        let place' : suc index ≡ length longer =
          omega (arith, length-append {0} before (action ∷ [])) in
        elim (Bool-cases (is_causal_boundary_operation action.operation)) [
          | inl boundary ↦
              rw (boundary, infer_actions)
                (then-Ends (cross_before actor (ids_of planned) index previous action found) _
                  (before-Ends index previous before action rest found whole place last boundary
                    all)
                  λ crossed right.
                    then-Ends (cross_after actor (ids_of planned) index action rest crossed) _
                      (after-Ends index before action rest crossed whole place boundary right)
                      λ both right'.
                        infer_actions-Ends (suc index) (some action) longer rest both whole' place'
                          (before, refl) right')
          | inr other ↦
              rw (other, infer_actions)
                (infer_actions-Ends (suc index) (some action) longer rest found whole' place'
                  (before, refl) all)
        ]

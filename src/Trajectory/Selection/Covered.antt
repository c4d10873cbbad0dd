-- ===== src/Trajectory/Selection/Covered.antt =====
-- What the passes of the selection in src/ddsleuth/trajectory.py have selected at each depth.
use ddsleuth.Prelude.{
  Bool, Bool-cases, List, Memᴰ, Option, Option-cases, [], get_elem?, inl, inr, keep, leb, leb→le,
  length, mem_append_left, mem_append_right, none, refl, some, subst, true, ℕ, ◌++◌, ◌∷◌, ◌≡◌, ◌≤◌,
  ◌⊎◌,
}
use ddsleuth.Trajectory.Selection.{
  Candidate, appended, control_in, first_pass, first_with, is_mutation, one_round,
}

mem_appended :
    {x : Candidate} (selected : List Candidate) (o : Option Candidate)
    → Memᴰ x selected
    → Memᴰ x (appended selected o)
mem_appended selected none m = m
mem_appended selected (some item) m = mem_append_left selected (item ∷ []) m

appended_mem :
    (selected : List Candidate) (o : Option Candidate) (item : Candidate)
    → o ≡ some item
    → Memᴰ item (appended selected o)
appended_mem selected none item h = cc
appended_mem selected (some other) item h =
    mem_append_right selected (other ∷ []) (Memᴰ.head (let same : item ≡ other = cc in same))

-- A group's mutation at the depth.
abbrev pub At : ℕ → List Candidate → Candidate → Type 0
At depth items item = get_elem? (keep is_mutation items) depth ≡ some item

-- The mutations of the groups at the depth are selected.
abbrev pub HasDepth : ℕ → List (List Candidate) → List Candidate → Type 0
HasDepth depth groups selected =
    (items : List Candidate)
    → Memᴰ items groups
    → (item : Candidate) → At depth items item
    → Memᴰ item selected

abbrev pub Within : List Candidate → List Candidate → Type 0
Within xs ys = (x : Candidate) → Memᴰ x xs → Memᴰ x ys

first_mutation :
    (items : List Candidate) (item : Candidate)
    → At 0 items item
    → first_with is_mutation items ≡ some item
first_mutation [] item h = cc
first_mutation (other ∷ items) item h = elim (Bool-cases (is_mutation other)) [
  | inl e ↦ let same : some other ≡ some item = rw e at h in rw e same
  | inr e ↦ rw e (first_mutation items item (rw e at h))
]

HasDepth-cons :
    (depth : ℕ) (items : List Candidate) (groups : List (List Candidate))
    (selected : List Candidate)
    → ((item : Candidate) → At depth items item → Memᴰ item selected)
    → HasDepth depth groups selected
    → HasDepth depth (items ∷ groups) selected
HasDepth-cons depth items groups selected here later other (Memᴰ.head e) item at =
    here item (subst (λ xs. At depth xs item) e at)
HasDepth-cons depth items groups selected here later other (Memᴰ.tail m) item at =
    later other m item at

-- The first pass meets the budget or selects the first mutation of each group.
pub first_pass-HasDepth :
    (budget : ℕ) (groups : List (List Candidate)) (selected : List Candidate)
    → (budget ≤ length (first_pass budget groups selected))
      ⊎ (HasDepth 0 groups (first_pass budget groups selected)
          × Within selected (first_pass budget groups selected))
unfolding first_pass
first_pass-HasDepth budget [] selected = inr (λ items m item at. elim m [ ], λ x m. m)
first_pass-HasDepth budget (items ∷ groups) selected =
    let controlled = appended selected (control_in items) in
    let mutated = appended controlled (first_with is_mutation items) in
    elim (Bool-cases (leb budget (length controlled))) [
      | inl full ↦ rw full (inl (leb→le _ _ full))
      | inr room ↦ elim (Bool-cases (leb budget (length mutated))) [
        | inl full ↦ rw (room, full) (inl (leb→le _ _ full))
        | inr room' ↦ rw (room, room') (with_group (first_pass-HasDepth budget groups mutated))
      ]
    ]
  where
    with_group :
        (budget
            ≤ length (
                first_pass budget groups
                  (appended (appended selected (control_in items)) (first_with is_mutation items))))
          ⊎ (HasDepth 0 groups (
                first_pass budget groups
                  (appended (appended selected (control_in items)) (first_with is_mutation items)))
              × Within
                  (appended (appended selected (control_in items)) (first_with is_mutation items))
                  (first_pass budget groups (
                    appended
                      (appended selected (control_in items))
                      (first_with is_mutation items))))
        → (budget
            ≤ length (
                first_pass budget groups
                  (appended (appended selected (control_in items)) (first_with is_mutation items))))
          ⊎ (HasDepth 0 (items ∷ groups) (
                first_pass budget groups
                  (appended (appended selected (control_in items)) (first_with is_mutation items)))
              × Within selected (
                  first_pass budget groups (
                    appended
                      (appended selected (control_in items))
                      (first_with is_mutation items))))
    with_group (inl full) = inl full
    with_group (inr (has, keeps)) = inr (
      HasDepth-cons 0 items groups _
          (λ item at. keeps item (appended_mem _ _ item (first_mutation items item at))) has,
      λ x m. keeps x (mem_appended _ _ (mem_appended selected _ m)),
    )

-- A round meets the budget or selects the mutation of each group at its depth.
pub one_round-HasDepth :
    (budget depth : ℕ) (groups : List (List Candidate)) (added : Bool) (selected : List Candidate)
    → let result = (one_round budget depth groups added selected).0 in
      (budget ≤ length result) ⊎ (HasDepth depth groups result × Within selected result)
unfolding one_round
one_round-HasDepth budget depth [] added selected = inr (λ items m item at. elim m [ ], λ x m. m)
one_round-HasDepth budget depth (items ∷ groups) added selected =
    elim (Option-cases (get_elem? (keep is_mutation items) depth)) [
      | inl used_up ↦
          rw (used_up, one_round)
            (past_none (one_round budget depth groups added selected).0 used_up
              (one_round-HasDepth budget depth groups added selected))
      | inr (item, there) ↦ elim (Bool-cases (leb budget (length (selected ++ item ∷ [])))) [
        | inl full ↦ rw (there, full, one_round) (inl (leb→le _ _ full))
        | inr room ↦
            rw (there, room, one_round)
              (past_some (one_round budget depth groups true (selected ++ item ∷ [])).0 item there
                (one_round-HasDepth budget depth groups true (selected ++ item ∷ [])))
      ]
    ]
  where
    past_none :
        (result : List Candidate)
        → get_elem? (keep is_mutation items) depth ≡ none
        → (budget ≤ length result) ⊎ (HasDepth depth groups result × Within selected result)
        → (budget ≤ length result)
          ⊎ (HasDepth depth (items ∷ groups) result × Within selected result)
    past_none result used_up (inl full) = inl full
    past_none result used_up (inr (has, keeps)) =
        inr (HasDepth-cons depth items groups result (λ item at. cc) has, keeps)

    past_some :
        (result : List Candidate) (item : Candidate)
        → At depth items item
        → (budget ≤ length result)
          ⊎ (HasDepth depth groups result × Within (selected ++ item ∷ []) result)
        → (budget ≤ length result)
          ⊎ (HasDepth depth (items ∷ groups) result × Within selected result)
    past_some result item there (inl full) = inl full
    past_some result item there (inr (has, keeps)) = inr (
      HasDepth-cons depth items groups result
          (λ other at.
            let same : item ≡ other = cc in
            subst (λ c. Memᴰ c result) same
              (keeps item (mem_append_right selected (item ∷ []) (Memᴰ.head refl))))
          has,
      λ x m. keeps x (mem_append_left selected (item ∷ []) m),
    )

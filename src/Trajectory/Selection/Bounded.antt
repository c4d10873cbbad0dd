-- ===== src/Trajectory/Selection/Bounded.antt =====
-- How many trajectories src/ddsleuth/trajectory.py selects, and why it selects no more.
use ddsleuth.Prelude.{
  All, Bool, Bool-cases, List, Option, Option-cases, [], ap, arith, false, get_elem?, inl, inr,
  keep, leb, length, length-append, none, refl, some, suc, true, zero, ℕ, ◌++◌, ◌<◌, ◌∙◌, ◌∷◌, ◌≡◌,
  ◌≤◌, ◌⊎◌,
}
use ddsleuth.Trajectory.Selection.{
  Candidate, appended, control_in, first_pass, first_with, insert_ranked, is_mutation, one_round,
  ranked, ranks_before,
}

pub length-ranked : (items : List Candidate) → length (ranked items) ≡ length items
length-ranked [] = refl
length-ranked (item ∷ items) = length_insert item (ranked items) ∙ ap suc (length-ranked items)
  where
    length_insert :
        (item : Candidate) (items : List Candidate)
        → length (insert_ranked item items) ≡ suc (length items)
    length_insert item [] = refl
    length_insert item (other ∷ items) = elim (Bool-cases (ranks_before other item)) [
      | inl e ↦ rw e (ap suc (length_insert item items))
      | inr e ↦ rw e refl
    ]

length-appended :
    (selected : List Candidate) (o : Option Candidate)
    → length (appended selected o) ≤ suc (length selected)
length-appended selected none = omega arith
length-appended selected (some item) = omega (arith, length-append {0} selected (item ∷ []))

pub first_pass-bounded :
    (budget : ℕ) (groups : List (List Candidate)) (selected : List Candidate)
    → length selected < budget
    → length (first_pass budget groups selected) ≤ budget
unfolding first_pass
first_pass-bounded budget [] selected h = omega arith
first_pass-bounded budget (items ∷ groups) selected h =
    let controlled = appended selected (control_in items) in
    let mutated = appended controlled (first_with is_mutation items) in
    let one_more = length-appended selected (control_in items) in
    elim (Bool-cases (leb budget (length controlled))) [
      | inl full ↦ rw full (omega arith)
      | inr room ↦
          let two_more = length-appended controlled (first_with is_mutation items) in
          let below : length controlled < budget = ground arith in
          elim (Bool-cases (leb budget (length mutated))) [
            | inl full ↦ rw (room, full) (omega arith)
            | inr room' ↦ rw (room, room') (first_pass-bounded budget groups mutated (ground arith))
          ]
    ]

-- Each of the groups has at most so many mutations.
abbrev pub AtMost : ℕ → List (List Candidate) → Type 0
AtMost depth groups = All (λ items. length (keep is_mutation items) ≤ depth) groups

none_past_end : (xs : List Candidate) (i : ℕ) → get_elem? xs i ≡ none → length xs ≤ i
none_past_end [] i h = omega arith
none_past_end (x ∷ xs) zero h = cc
none_past_end (x ∷ xs) (suc i) h = let rest = none_past_end xs i h in omega arith

-- A round keeps to the budget, and it either adds something or finds every group used up.
abbrev pub RoundEnds : ℕ → ℕ → List (List Candidate) → Bool → ℕ → List Candidate × Bool → Type 0
RoundEnds budget depth groups added before (selected, done) =
    (length selected ≤ budget)
    × (before ≤ length selected)
    × (((done ≡ true) × ((added ≡ true) ⊎ (before < length selected)))
        ⊎ ((done ≡ false) × (added ≡ false) × AtMost depth groups))

module _ (budget depth : ℕ) (items : List Candidate) (groups : List (List Candidate)) where
  past_group :
      (added : Bool) (before : ℕ) (selected : List Candidate) (done : Bool)
      → length (keep is_mutation items) ≤ depth
      → RoundEnds budget depth groups added before (selected, done)
      → RoundEnds budget depth (items ∷ groups) added before (selected, done)
  past_group added before selected done bound (within, above, inl more) = (within, above, inl more)
  past_group added before selected done bound (within, above, inr (nothing, none_yet, bounds)) =
      (within, above, inr (nothing, none_yet, (bound, bounds)))

  past_added :
      (added : Bool) (before later : ℕ) (selected : List Candidate) (done : Bool)
      → before < later
      → RoundEnds budget depth groups true later (selected, done)
      → RoundEnds budget depth (items ∷ groups) added before (selected, done)
  past_added added before later selected done up (within, above, inl (e, more)) =
      (within, omega arith, inl (e, inr (omega arith)))
  past_added added before later selected done up (within, above, inr (nothing, none_yet, bounds)) =
      cc

pub one_round-RoundEnds :
    (budget depth : ℕ) (groups : List (List Candidate)) (added : Bool) (selected : List Candidate)
    → length selected < budget
    → RoundEnds budget depth groups added
        (length selected)
        (one_round budget depth groups added selected)
unfolding one_round
one_round-RoundEnds budget depth [] true selected h =
    (omega arith, omega arith, inl (refl, inl refl))
one_round-RoundEnds budget depth [] false selected h =
    (omega arith, omega arith, inr (refl, refl, tt))
one_round-RoundEnds budget depth (items ∷ groups) added selected h =
    elim (Option-cases (get_elem? (keep is_mutation items) depth)) [
      | inl used_up ↦
          rw (used_up, one_round)
            (past_group budget depth items groups added (length selected) _ _
              (none_past_end (keep is_mutation items) depth used_up)
              (one_round-RoundEnds budget depth groups added selected h))
      | inr (item, there) ↦
          let longer = length-append {0} selected (item ∷ []) in
          elim (Bool-cases (leb budget (length (selected ++ item ∷ [])))) [
            | inl full ↦
                rw (there, full, one_round)
                  (omega arith, omega arith, inl (refl, inr (omega arith)))
            | inr room ↦
                rw (there, room, one_round)
                  (past_added budget depth items groups added (length selected)
                    (length (selected ++ item ∷ [])) _ _ (omega arith)
                    (one_round-RoundEnds budget depth groups true (selected ++ item ∷ [])
                      (ground arith)))
          ]
    ]

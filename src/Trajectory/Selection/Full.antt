-- ===== src/Trajectory/Selection/Full.antt =====
-- The selection of src/ddsleuth/trajectory.py meets the budget or leaves no mutation out.
use ddsleuth.Prelude.{
  position_of, Bool, Bool-cases, List, Memᴰ, String, [], arith, false, inl, inr, keep, leb, leb→le,
  length, ltb, map, subst, suc, sym, true, zero, ℕ, ◌+◌, ◌<◌, ◌∷◌, ◌≡◌, ◌≤◌, ◌⊎◌,
}
use ddsleuth.Trajectory.Selection.{
  Candidate, Group, after_round, first_pass, further_rounds, grouped, is_mutation, one_round,
  ranked, select, sorted_groups,
}
use ddsleuth.Trajectory.Selection.Bounded.{
  AtMost, RoundEnds, first_pass-bounded, length-ranked, one_round-RoundEnds,
}
use ddsleuth.Trajectory.Selection.Covered.{
  At, HasDepth, Within, first_pass-HasDepth, one_round-HasDepth,
}

-- The mutations of the groups at the depths ahead of the given one are selected.
abbrev HasDepths : ℕ → List (List Candidate) → List Candidate → Type 0
HasDepths depth groups selected = (i : ℕ) → i < depth → HasDepth i groups selected

-- Every mutation of every group is selected.
abbrev pub HasMutations : List (List Candidate) → List Candidate → Type 0
HasMutations groups selected =
    (items : List Candidate)
    → Memᴰ items groups
    → (item : Candidate) → Memᴰ item (keep is_mutation items)
    → Memᴰ item selected

AtMost-of :
    (depth : ℕ) (groups : List (List Candidate)) (items : List Candidate)
    → AtMost depth groups
    → Memᴰ items groups
    → length (keep is_mutation items) ≤ depth
AtMost-of depth [] items bounds m = elim m [ ]
AtMost-of depth (other ∷ groups) items (bound, bounds) (Memᴰ.head e) =
    subst (λ xs. length (keep is_mutation xs) ≤ depth) (sym e) bound
AtMost-of depth (other ∷ groups) items (bound, bounds) (Memᴰ.tail m) =
    AtMost-of depth groups items bounds m

module _ (budget : ℕ) (groups : List (List Candidate)) where
  abbrev Reaches : ℕ → List Candidate → Type 0
  Reaches depth selected = (budget ≤ length selected) ⊎ HasDepths depth groups selected

  abbrev Ends : List Candidate → Type 0
  Ends selected =
      (length selected ≤ budget) × ((budget ≤ length selected) ⊎ HasMutations groups selected)

  further_reach :
      (depth : ℕ) (selected result : List Candidate)
      → length selected < budget
      → Reaches depth selected
      → (budget ≤ length result) ⊎ (HasDepth depth groups result × Within selected result)
      → Reaches (suc depth) result
  further_reach depth selected result room reaches (inl full) = inl full
  further_reach depth selected result room (inl full) (inr (has, keeps)) = inl (omega arith)
  further_reach depth selected result room (inr ahead) (inr (has, keeps)) =
      inr λ i below items m item at. elim (Bool-cases (ltb i depth)) [
        | inl before ↦ keeps item (ahead i (ground arith) items m item at)
        | inr now ↦
            let same : i ≡ depth = ground arith in
            has items m item (subst (λ n. At n items item) same at)
      ]

  used_up :
      (depth : ℕ) (selected : List Candidate)
      → AtMost depth groups
      → Reaches (suc depth) selected
      → (budget ≤ length selected) ⊎ HasMutations groups selected
  used_up depth selected bounds (inl full) = inl full
  used_up depth selected bounds (inr ahead) = inr λ items m item member.
      let (i, there, below) = position_of (keep is_mutation items) member in
      let bound = AtMost-of depth groups items bounds m in ahead i (omega arith) items m item there

  after_round-Ends :
      (again : ℕ → List Candidate → List Candidate) (depth before : ℕ)
      (result : List Candidate × Bool)
      → ((selected : List Candidate)
          → before < length selected
          → length selected ≤ budget
          → Reaches (suc depth) selected
          → Ends (again (suc depth) selected))
      → RoundEnds budget depth groups false before result
      → Reaches (suc depth) result.0
      → Ends (after_round again depth result)
  after_round-Ends again depth before (selected, true) continues
        (within, above, inl (done, inl absurd)) reaches =
      cc
  after_round-Ends again depth before (selected, true) continues
        (within, above, inl (done, inr more)) reaches =
      continues selected more within reaches
  after_round-Ends again depth before (selected, true) continues
        (within, above, inr (done, none_yet, bounds)) reaches =
      cc
  after_round-Ends again depth before (selected, false) continues (within, above, inl (done, more))
        reaches =
      cc
  after_round-Ends again depth before (selected, false) continues
        (within, above, inr (done, none_yet, bounds)) reaches =
      (within, used_up depth selected bounds reaches)

  further_rounds-Ends :
      (fuel depth : ℕ) (selected : List Candidate)
      → length selected ≤ budget
      → budget ≤ fuel + length selected
      → Reaches depth selected
      → Ends (further_rounds fuel budget groups depth selected)
  unfolding further_rounds
  further_rounds-Ends zero depth selected within enough reaches = (within, inl (omega arith))
  further_rounds-Ends (suc fuel) depth selected within enough reaches =
      elim (Bool-cases (ltb (length selected) budget)) [
        | inl room ↦
            let below : length selected < budget = ground arith in
            rw room (
              after_round-Ends (further_rounds fuel budget groups) depth (length selected)
                (one_round budget depth groups false selected)
                (λ later more within' reaches'.
                  further_rounds-Ends fuel (suc depth) later within' (omega arith) reaches')
                (one_round-RoundEnds budget depth groups false selected below)
                (further_reach depth selected (one_round budget depth groups false selected).0 below
                  reaches (one_round-HasDepth budget depth groups false selected)))
        | inr full ↦ rw full (within, inl (ground arith))
      ]

  first_pass-Reaches :
      (budget ≤ length (first_pass budget groups []))
        ⊎ (HasDepth 0 groups (first_pass budget groups [])
            × Within [] (first_pass budget groups []))
      → Reaches 1 (first_pass budget groups [])
  first_pass-Reaches (inl full) = inl full
  first_pass-Reaches (inr (has, keeps)) = inr λ i below items m item at.
      let same : i ≡ 0 = omega arith in has items m item (subst (λ n. At n items item) same at)

-- The groups of the candidates that agree in all but the schedule, each with its items ranked.
abbrev pub groups_of : (Candidate → String) → List Candidate → List (List Candidate)
unfolding grouped
groups_of group_key candidates =
    map (λ (group : Group). ranked group.1) (sorted_groups (grouped group_key [] candidates))

-- If the budget is at least one, no more trajectories are selected than it allows. If the
-- candidates are no more than the budget, as many are selected as there are; and if they are more,
-- either the budget is met exactly or every mutation of every group of candidates is selected.
pub select-IsFull :
    (group_key : Candidate → String) (budget : ℕ) (candidates : List Candidate)
    → 1 ≤ budget
    → let selected = select group_key budget candidates in
      (length selected ≤ budget)
      × (length candidates ≤ budget → length selected ≡ length candidates)
      × (budget < length candidates
          → (length selected ≡ budget) ⊎ HasMutations (groups_of group_key candidates) selected)
unfolding select
select-IsFull group_key budget candidates positive =
    elim (Bool-cases (leb (length candidates) budget)) [
      | inl fits ↦
          let all = length-ranked candidates in
          let few : length candidates ≤ budget = leb→le _ _ fits in
          rw fits (omega arith, λ h. all, λ h. omega arith)
      | inr more ↦
          let many : budget < length candidates = ground arith in
          let groups = groups_of group_key candidates in
          rw more (
            full_of
              (further_rounds-Ends budget groups budget 1 (first_pass budget groups [])
                (first_pass-bounded budget groups [] positive) (omega arith)
                (first_pass-Reaches budget groups (first_pass-HasDepth budget groups [])))
              many)
    ]
  where
    full_of :
        {selected : List Candidate}
        → Ends budget (groups_of group_key candidates) selected
        → budget < length candidates
        → (length selected ≤ budget)
          × (length candidates ≤ budget → length selected ≡ length candidates)
          × (budget < length candidates
              → (length selected ≡ budget) ⊎ HasMutations (groups_of group_key candidates) selected)
    full_of (within, inl full) many = (within, λ h. omega arith, λ h. inl (omega arith))
    full_of (within, inr mutations) many = (within, λ h. omega arith, λ h. inr mutations)

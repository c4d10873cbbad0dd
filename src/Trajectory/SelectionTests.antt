-- ===== src/Trajectory/SelectionTests.antt =====
-- Two of three trajectories are selected, for src/ddsleuth/trajectory.py.
use ddsleuth.Json.{JsonValue, str}
use ddsleuth.Prelude.{
  Bool, List, String, [], arith, false, length, map, refl, true, ◌<◌, ◌∷◌, ◌≡◌, ◌≤◌, ◌⊎◌,
}
use ddsleuth.Trajectory.Selection.{Candidate, select}
use ddsleuth.Trajectory.Selection.Full.{HasMutations, groups_of, select-IsFull}

abbrev candidate : Bool → JsonValue → String → Candidate
candidate baseline mode key = record {
  case = [];
  assignments = ("trajectory.barrier_mode", mode) ∷ [];
  baseline = baseline;
  selection_key = key;
}

abbrev candidates : List Candidate
candidates =
    candidate false (str "preserve") "c"
    ∷ candidate false (str "relaxed") "b"
    ∷ candidate true (str "preserve") "a"
    ∷ []

abbrev one_group : Candidate → String
one_group item = "g"

select-IsFull_example :
    let selected = select one_group 2 candidates in
    (length selected ≤ 2)
    × (length candidates ≤ 2 → length selected ≡ length candidates)
    × (2 < length candidates
        → (length selected ≡ 2) ⊎ HasMutations (groups_of one_group candidates) selected)
select-IsFull_example = select-IsFull one_group 2 candidates (omega arith)

-- The control comes first, then the schedule that relaxes the barriers.
selected_keys :
    map (λ (c : Candidate). c.selection_key) (select one_group 2 candidates) ≡ "a" ∷ "b" ∷ []
unfolding select
selected_keys = refl

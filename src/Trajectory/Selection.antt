-- ===== src/Trajectory/Selection.antt =====
-- The choice of the trajectories within the budget, in `generate_trajectories` of
-- src/ddsleuth/trajectory.py.
pub mod Bounded
pub mod Covered
pub mod Full
use ddsleuth.Json.{bool, insert, Dict, JsonValue, equals_int, equals_str, get, get_or, int, lookup}
use ddsleuth.Prelude.{
  Bool, List, Option, String, [], eq_nat, false, get_elem?, if◌then◌else◌, keep, leb, length,
  lt_str, ltb, map, none, not, pos, some, suc, true, zero, ℕ, ◌&&◌, ◌++◌, ◌==◌, ◌||◌, ◌∷◌,
}

-- A case with its assignments, whether it is the control, and its digest.
pub record Candidate : Type 0 where
  pub case : Dict JsonValue
  pub assignments : Dict JsonValue
  pub baseline : Bool
  pub selection_key : String

-- `value != 0`
abbrev is_not_zero : JsonValue → Bool
is_not_zero v = not (equals_int v (pos 0))

abbrev has_entry : Dict JsonValue → String → Bool
has_entry d key = elim (lookup key d) [ none ↦ false | some v ↦ true ]

pub mutation_tier : Candidate → ℕ
mutation_tier item =
    if item.baseline
    then 0
    else if has_entry item.assignments "trajectory.causal_mutation"
    then 1
    else if equals_str (get item.assignments "trajectory.barrier_mode") "relaxed"
    then 2
    else if is_not_zero (get_or item.assignments "trajectory.boundary_offset_ms" (int (pos 0)))
    then 3
    else if is_not_zero (get_or item.assignments "trajectory.action_jitter_ms" (int (pos 0)))
    then 4
    else 5

-- `(mutation_tier(item), item[3])`, in the order of tuples
abbrev pub ranks_before : Candidate → Candidate → Bool
ranks_before a b =
    ltb (mutation_tier a) (mutation_tier b)
    || eq_nat (mutation_tier a) (mutation_tier b) && lt_str a.selection_key b.selection_key

-- A stable sort.
abbrev pub insert_ranked : Candidate → List Candidate → List Candidate
insert_ranked item [] = item ∷ []
insert_ranked item (other ∷ items) =
    if ranks_before other item then other ∷ insert_ranked item items else item ∷ other ∷ items

abbrev pub ranked : List Candidate → List Candidate
ranked [] = []
ranked (item ∷ items) = insert_ranked item (ranked items)

abbrev pub Group : Type 0
Group = String × List Candidate

-- `groups.setdefault(group_key, []).append(item)`
abbrev pub add_to_group : String → Candidate → List Group → List Group
add_to_group key item [] = (key, item ∷ []) ∷ []
add_to_group key item ((other, items) ∷ groups) =
    if other == key
    then (other, items ++ item ∷ []) ∷ groups
    else (other, items) ∷ add_to_group key item groups

-- `group_key` is the digest of the seed and the semantic assignments.
unfoldable pub grouped : (Candidate → String) → List Group → List Candidate → List Group
grouped group_key groups [] = groups
grouped group_key groups (item ∷ items) =
    grouped group_key (add_to_group (group_key item) item groups) items

abbrev insert_group : Group → List Group → List Group
insert_group group [] = group ∷ []
insert_group group (other ∷ groups) =
    if lt_str other.0 group.0 then other ∷ insert_group group groups else group ∷ other ∷ groups

abbrev pub sorted_groups : List Group → List Group
sorted_groups [] = []
sorted_groups (group ∷ groups) = insert_group group (sorted_groups groups)

-- `next((item for item in items if test(item)), None)`
abbrev pub first_with : (Candidate → Bool) → List Candidate → Option Candidate
first_with test [] = none
first_with test (item ∷ items) = if test item then some item else first_with test items

abbrev pub is_mutation : Candidate → Bool
is_mutation item = not item.baseline

-- The control of a group, or else its first item.
abbrev pub control_in : List Candidate → Option Candidate
control_in [] = none
control_in (item ∷ items) = elim (first_with (λ c. c.baseline) (item ∷ items)) [
  | none ↦ some item
  | some control ↦ some control
]

abbrev pub appended : List Candidate → Option Candidate → List Candidate
appended selected none = selected
appended selected (some item) = selected ++ item ∷ []

-- One control and one mutation of each group, until the budget is met.
unfoldable pub first_pass : ℕ → List (List Candidate) → List Candidate → List Candidate
first_pass budget [] selected = selected
first_pass budget (items ∷ groups) selected =
    let controlled = appended selected (control_in items) in
    let mutated = appended controlled (first_with is_mutation items) in
    let further = first_pass budget groups mutated in
    if leb budget (length controlled)
    then controlled
    else if leb budget (length mutated)
    then mutated
    else further

-- One round over the groups: what is selected, and whether anything was added.
unfoldable pub one_round :
    ℕ → ℕ → List (List Candidate) → Bool → List Candidate → List Candidate × Bool
one_round budget depth [] added selected = (selected, added)
one_round budget depth (items ∷ groups) added selected =
    elim (get_elem? (keep is_mutation items) depth) [
      | none ↦ one_round budget depth groups added selected
      | some item ↦ elim (leb budget (length (selected ++ item ∷ []))) [
        | true ↦ (selected ++ item ∷ [], true)
        | false ↦ one_round budget depth groups true (selected ++ item ∷ [])
      ]
    ]

abbrev pub after_round :
    (ℕ → List Candidate → List Candidate) → ℕ → List Candidate × Bool → List Candidate
after_round again depth (selected, true) = again (suc depth) selected
after_round again depth (selected, false) = selected

-- `while len(selected) < budget`, with fuel
unfoldable pub further_rounds : ℕ → ℕ → List (List Candidate) → ℕ → List Candidate → List Candidate
unfolding one_round
further_rounds zero budget groups depth selected = selected
further_rounds (suc fuel) budget groups depth selected =
    if ltb (length selected) budget
    then after_round (further_rounds fuel budget groups) depth
        (one_round budget depth groups false selected)
    else selected

unfoldable pub select : (Candidate → String) → ℕ → List Candidate → List Candidate
unfolding mutation_tier grouped first_pass further_rounds
select group_key budget candidates =
    let groups =
      map (λ (group : Group). ranked group.1) (sorted_groups (grouped group_key [] candidates)) in
    if leb (length candidates) budget
    then ranked candidates
    else further_rounds budget budget groups 1 (first_pass budget groups [])

-- The cases with their assignments; the first one is marked for the scheduler.
pub with_seeds : ℕ → List Candidate → List (Dict JsonValue × Dict JsonValue)
with_seeds index [] = []
with_seeds index (item ∷ items) =
    (item.case, insert "trajectory.scheduler_seed" (bool (eq_nat index 0)) item.assignments)
    ∷ with_seeds (suc index) items

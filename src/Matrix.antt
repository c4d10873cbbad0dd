-- ===== src/Matrix.antt =====
-- The pairwise rows of src/ddsleuth/matrix.py: few cases in which every two values of two
-- dimensions meet. A dimension enters with the number of its values.
pub mod Pairs
pub mod Path
pub mod Placing
pub mod Filling
pub mod Covering
pub mod Rounds
pub mod Rows
mod Tests
use ddsleuth.Model.EventKind.{value}
use ddsleuth.Prelude.{
  Bool, List, Option, Result, [], any, eq_nat, err, false, get_elem?, if◌then◌else◌, keep, length,
  lt_int, ltb, map, negsuc, none, not, ok, pos, some, suc, true, zero, ℕ, ℤ, ◌&&◌, ◌++◌, ◌∷◌,
}

-- (left, left_value, right, right_value): two dimensions and a value of each
pub record Pair : Type 0 where
  pub left : ℕ
  pub left_value : ℕ
  pub right : ℕ
  pub right_value : ℕ

pub data MatrixError : Type 0 where
  requires_cases : ℕ → MatrixError
  requires_more_cases : MatrixError
  construction_failure : MatrixError
  out_of_fuel : MatrixError

-- `list(range(n))`
abbrev pub range : ℕ → List ℕ
range zero = []
range (suc n) = range n ++ n ∷ []

-- The initial set, left by left and right by right.
abbrev pub pairs_of_value : ℕ → ℕ → ℕ → List ℕ → List Pair
pairs_of_value left left_value right values =
    map
      (λ right_value. record {
        left = left;
        left_value = left_value;
        right = right;
        right_value = right_value;
      })
      values

abbrev pub value_pairs : ℕ → List ℕ → ℕ → List ℕ → List Pair
value_pairs left [] right values = []
value_pairs left (left_value ∷ left_values) right values =
    pairs_of_value left left_value right values ++ value_pairs left left_values right values

abbrev pub with_rights : ℕ → ℕ → ℕ → List ℕ → List Pair
with_rights left size right [] = []
with_rights left size right (other ∷ sizes) =
    value_pairs left (range size) right (range other) ++ with_rights left size (suc right) sizes

abbrev pub all_pairs : ℕ → List ℕ → List Pair
all_pairs left [] = []
all_pairs left (size ∷ sizes) = with_rights left size (suc left) sizes ++ all_pairs (suc left) sizes

abbrev pub same_pair : Pair → Pair → Bool
same_pair p q =
    eq_nat p.left q.left
    && (eq_nat p.left_value q.left_value
        && (eq_nat p.right q.right && eq_nat p.right_value q.right_value))

-- The order of tuples.
abbrev pub before_pair : Pair → Pair → Bool
before_pair p q =
    if ltb p.left q.left
    then true
    else if ltb q.left p.left
    then false
    else if ltb p.left_value q.left_value
    then true
    else if ltb q.left_value p.left_value
    then false
    else if ltb p.right q.right
    then true
    else if ltb q.right p.right
    then false
    else ltb p.right_value q.right_value

-- `min(uncovered)`
abbrev pub least : Pair → List Pair → Pair
least p [] = p
least p (q ∷ pairs) = if before_pair q p then least q pairs else least p pairs

-- `pair in pairs`
abbrev pub has_pair : List Pair → Pair → Bool
has_pair pairs p = any (λ q. same_pair q p) pairs

-- A row in the making: None where no value is chosen yet.
abbrev pub Row : Type 0
Row = List (Option ℕ)

abbrev pub put : ℕ → ℕ → Row → Row
put n v [] = []
put zero v (x ∷ row) = some v ∷ row
put (suc n) v (x ∷ row) = x ∷ put n v row

abbrev pub unchosen : ℕ → Row
unchosen zero = []
unchosen (suc n) = none ∷ unchosen n

abbrev pair_of : ℕ → ℕ → ℕ → ℕ → Pair
pair_of index candidate other other_value =
    if ltb index other
    then record { left = index; left_value = candidate; right = other; right_value = other_value }
    else record { left = other; left_value = other_value; right = index; right_value = candidate }

-- How many open pairs the candidate would cover with the values that are chosen.
abbrev score : List Pair → ℕ → ℕ → ℕ → Row → ℕ
score uncovered index candidate other [] = 0
score uncovered index candidate other (none ∷ row) = score uncovered index candidate (suc other) row
score uncovered index candidate other (some value ∷ row) =
    let rest = score uncovered index candidate (suc other) row in
    if eq_nat other index
    then rest
    else if has_pair uncovered (pair_of index candidate other value)
    then suc rest
    else rest

-- The first candidate of the highest score, from 0 and the score -1 on.
abbrev best : List Pair → ℕ → Row → List ℕ → ℕ × ℤ → ℕ × ℤ
best uncovered index row [] found = found
best uncovered index row (candidate ∷ candidates) (best_value, best_score) =
    let n = score uncovered index candidate 0 row in
    best uncovered index row candidates
      (if lt_int best_score (pos n) then (candidate, pos n) else (best_value, best_score))

abbrev pub is_chosen : Option (Option ℕ) → Bool
is_chosen (some (some v)) = true
is_chosen _ = false

abbrev pub choose : List Pair → ℕ → ℕ → Row → Row
choose uncovered index size row =
    if is_chosen (get_elem? row index)
    then row
    else put index (best uncovered index row (range size) (0, negsuc 0)).0 row

pub fill : List Pair → ℕ → List ℕ → Row → Row
fill uncovered index [] row = row
fill uncovered index (size ∷ sizes) row =
    fill uncovered (suc index) sizes (choose uncovered index size row)

-- `tuple(value for value in row if value is not None)`
abbrev pub completed : Row → List ℕ
completed [] = []
completed (none ∷ row) = completed row
completed (some v ∷ row) = v ∷ completed row

-- What the two loops over a completed row discard.
abbrev pub pairs_with : ℕ → ℕ → ℕ → List ℕ → List Pair
pairs_with left left_value right [] = []
pairs_with left left_value right (value ∷ row) =
    record { left = left; left_value = left_value; right = right; right_value = value }
    ∷ pairs_with left left_value (suc right) row

abbrev pub row_pairs : ℕ → List ℕ → List Pair
row_pairs left [] = []
row_pairs left (value ∷ row) = pairs_with left value (suc left) row ++ row_pairs (suc left) row

abbrev pub discard : List Pair → List Pair → List Pair
discard pairs uncovered = keep (λ p. not (has_pair pairs p)) uncovered

abbrev pub seeded : ℕ → Pair → Row
seeded count seed = put seed.right seed.right_value (put seed.left seed.left_value (unchosen count))

abbrev pub next_row : List ℕ → Pair → List Pair → List ℕ
next_row sizes seed uncovered = completed (fill uncovered 0 sizes (seeded (length sizes) seed))

-- The loop, with fuel: a row covers its seed at least, so the number of open pairs is enough.
unfoldable pub cover :
    ℕ → List ℕ → ℤ → List Pair → List (List ℕ) → Result MatrixError (List (List ℕ))
unfolding fill
cover fuel sizes max_cases [] rows = ok rows
cover zero sizes max_cases (p ∷ pairs) rows = err out_of_fuel
cover (suc fuel) sizes max_cases (p ∷ pairs) rows =
    let uncovered : List Pair = p ∷ pairs in
    let row = next_row sizes (least p pairs) uncovered in
    let made = rows ++ row ∷ [] in
    let further = cover fuel sizes max_cases (discard (row_pairs 0 row) uncovered) made in
    if not (eq_nat (length row) (length sizes))
    then err construction_failure
    else if lt_int max_cases (pos (length made))
    then err requires_more_cases
    else further

abbrev pub single_rows : ℕ → List (List ℕ)
single_rows size = map (λ value. value ∷ []) (range size)

unfoldable pub pairwise_rows : List ℕ → ℤ → Result MatrixError (List (List ℕ))
unfolding cover
pairwise_rows (size ∷ []) max_cases =
    if lt_int max_cases (pos (length (single_rows size)))
    then err (requires_cases (length (single_rows size)))
    else ok (single_rows size)
pairwise_rows sizes max_cases =
    let uncovered = all_pairs 0 sizes in cover (length uncovered) sizes max_cases uncovered []

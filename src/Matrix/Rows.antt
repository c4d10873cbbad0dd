-- ===== src/Matrix/Rows.antt =====
-- What the rows of src/ddsleuth/matrix.py promise, and that they are found.
use ddsleuth.Matrix.{
  MatrixError, all_pairs, pairwise_rows, range, requires_cases, single_rows, Pair,
  requires_more_cases,
}
use ddsleuth.Matrix.Pairs.{IsPair}
use ddsleuth.Prelude.{
  get_elem?, mem_of_map, some, sym, zero-add, ap, subst, Bool-cases, List, Memᴰ, [], arith, err,
  inl, inr, length, lt_int, ok, pos, refl, suc, zero, ℕ, ℤ, ◌<◌, ◌∷◌, ◌≡◌,
}
use ddsleuth.Matrix.Rounds.{KeepsTo, IsPairwise, IsPairwise-cover, cover_ends}
use ddsleuth.Matrix.Placing.{IsPlaced-all_pairs}

no_pair_of_one : (size : ℕ) (p : Pair) → ¬ IsPair (size ∷ []) p
no_pair_of_one size p h = at p.left p.right h.apart h.right_there
  where
    at : (l r : ℕ) → l < r → get_elem? (size ∷ []) r ≡ some h.right_size → ⊥
    at l zero a there = omega (arith, a)
    at l (suc r) a there = cc

-- The rows that are returned are at most as many as the limit, each has as many values as there are
-- dimensions, and every two values of two dimensions stand together in some row.
pub pairwise_rows-IsPairwise :
    (sizes : List ℕ) (limit : ℕ) (rows : List (List ℕ))
    → pairwise_rows sizes (pos limit) ≡ ok rows
    → IsPairwise sizes (pos limit) rows
unfolding pairwise_rows
pairwise_rows-IsPairwise [] limit rows h = IsPairwise-cover [] limit rows h
pairwise_rows-IsPairwise (size ∷ other ∷ sizes) limit rows h =
    IsPairwise-cover (size ∷ other ∷ sizes) limit rows h
pairwise_rows-IsPairwise (size ∷ []) limit rows h =
    elim (Bool-cases (lt_int (pos limit) (pos (length (single_rows size))))) [
      | inl over ↦
          let failed : err (requires_cases (length (single_rows size))) ≡ ok rows = rw over at h in
          cc
      | inr fits ↦
          let held : ok (single_rows size) ≡ ok rows = rw fits at h in
          let same : single_rows size ≡ rows = cc in
          record {
            within_limit = rw same at fits;
            full = λ row m.
                let (v, _, e) =
                  mem_of_map (λ value. value ∷ []) (range size)
                    (subst (λ l. Memᴰ row l) (sym same) m) in
                ap length e;
            every_pair = λ p is_pair. absurd (no_pair_of_one size p is_pair);
          }
    ]

-- The error of too many rows, which names their number if there is one dimension.
abbrev pub too_many : List ℕ → ℕ → MatrixError
too_many (size ∷ []) count = requires_cases count
too_many sizes count = requires_more_cases

-- For given numbers of values there are rows such that, at any limit, these rows are returned or
-- the error of too many rows is. They are returned only if they are at most as many as the limit, or
-- none; and the error comes only if they are more than the limit. So the search always ends, and no
-- row is left without a value.
pub pairwise_rows_total :
    (sizes : List ℕ)
    → (rows : List (List ℕ)) × ((max_cases : ℤ)
        → KeepsTo max_cases [] rows (too_many sizes (length rows)) (pairwise_rows sizes max_cases))
unfolding pairwise_rows
pairwise_rows_total [] = ([], λ max_cases. inl (refl, inr refl))
pairwise_rows_total (size ∷ []) = (
  single_rows size,
  λ max_cases. elim (Bool-cases (lt_int max_cases (pos (length (single_rows size))))) [
    | inl over ↦ rw over (inr (refl, refl))
    | inr fits ↦ rw fits (inl (refl, inl refl))
  ],
)
pairwise_rows_total (size ∷ other ∷ sizes) =
    let all : List ℕ = size ∷ other ∷ sizes in
    let (rows, longer, ends) =
      cover_ends all (length (all_pairs 0 all)) (all_pairs 0 all) [] (omega arith)
        (λ p m. let q = IsPlaced-all_pairs 0 all p m in rw zero-add at q) in
    (rows, ends)

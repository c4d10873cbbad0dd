-- ===== src/Matrix/Tests.antt =====
-- The theorems about src/ddsleuth/matrix.py at three dimensions of two values.
use ddsleuth.Matrix.{pairwise_rows, requires_more_cases}
use ddsleuth.Matrix.Rows.{too_many, pairwise_rows-IsPairwise, pairwise_rows_total}
use ddsleuth.Prelude.{length, ℤ, List, [], err, ok, pos, refl, ℕ, ◌∷◌, ◌≡◌}
use ddsleuth.Matrix.Rounds.{KeepsTo, IsPairwise}

abbrev three_dimensions : List ℕ
three_dimensions = 2 ∷ 2 ∷ 2 ∷ []

abbrev four_rows : List (List ℕ)
four_rows = (0 ∷ 0 ∷ 0 ∷ []) ∷ (0 ∷ 1 ∷ 1 ∷ []) ∷ (1 ∷ 0 ∷ 1 ∷ []) ∷ (1 ∷ 1 ∷ 0 ∷ []) ∷ []

rows_of_three : pairwise_rows three_dimensions (pos 4) ≡ ok four_rows
unfolding pairwise_rows
rows_of_three = refl

too_many_rows : pairwise_rows three_dimensions (pos 3) ≡ err requires_more_cases
unfolding pairwise_rows
too_many_rows = refl

pairwise_rows-IsPairwise_example : IsPairwise three_dimensions (pos 4) four_rows
pairwise_rows-IsPairwise_example =
    pairwise_rows-IsPairwise three_dimensions 4 four_rows rows_of_three

pairwise_rows_total_example :
    (rows : List (List ℕ)) × ((max_cases : ℤ)
      → KeepsTo max_cases [] rows
          (too_many three_dimensions (length rows))
          (pairwise_rows three_dimensions max_cases))
pairwise_rows_total_example = pairwise_rows_total three_dimensions

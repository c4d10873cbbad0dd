-- ===== src/Matrix/Rounds.antt =====
-- The rounds of `_pairwise_rows` of src/ddsleuth/matrix.py: what is covered, and that they end.
use ddsleuth.Matrix.{
  MatrixError, all_pairs, has_pair, same_pair, Pair, construction_failure, cover, discard, least,
  next_row, requires_more_cases, row_pairs,
}
use ddsleuth.Matrix.Covering.{
  mem_least, row_pairs-Covers, same_pair_refl, Covers-row_pairs, discarded_or_left,
}
use ddsleuth.Matrix.Filling.{Covers-next_row, length-next_row}
use ddsleuth.Matrix.Pairs.{IsPair-all_pairs, Covers, IsPair}
use ddsleuth.Prelude.{
  Result, length-append, negsuc, any_of_mem, ap, mem_append_cases, mem_of_keep, not, subst, true,
  Bool, Bool-cases, List, Memᴰ, [], arith, eq_nat, eq_nat_iff, err, false, inl, inr, keep, length,
  lt_int, mem_append_left, mem_append_right, ok, pos, refl, suc, zero, ℕ, ℤ, ◌++◌, ◌<◌, ◌∷◌, ◌≡◌,
  ◌≤◌, ◌⊎◌,
}
use ddsleuth.Matrix.Placing.{IsPlaced}

-- Some row has both values of the pair.
pub record IsCovered (rows : List (List ℕ)) (p : Pair) : Type 0 where
  pub row : List ℕ
  pub there : Memᴰ row rows
  pub covers : Covers row p

-- At most so many rows, a value for each dimension in each, and every pair in some row.
pub record IsPairwise (sizes : List ℕ) (max_cases : ℤ) (rows : List (List ℕ)) : Type 0 where
  pub within_limit : lt_int max_cases (pos (length rows)) ≡ false
  pub full : (row : List ℕ) → Memᴰ row rows → length row ≡ length sizes
  pub every_pair : (p : Pair) → IsPair sizes p → IsCovered rows p

module _ {ℓ} {A : Type ℓ} (test : A → Bool) where
  length-keep : (xs : List A) → length (keep test xs) ≤ length xs
  length-keep [] = omega arith
  length-keep (x ∷ xs) = elim (Bool-cases (test x)) [
    | inl e ↦ rw e (let h = length-keep xs in omega (arith, h))
    | inr e ↦ rw e (let h = length-keep xs in omega (arith, h))
  ]

  length-keep_fails :
      {x : A} (xs : List A) → Memᴰ x xs → test x ≡ false → length (keep test xs) < length xs
  length-keep_fails [] m h = elim m [ ]
  length-keep_fails (y ∷ xs) (Memᴰ.head same) h =
      let fails : test y ≡ false = cc in rw fails (let k = length-keep xs in omega (arith, k))
  length-keep_fails (y ∷ xs) (Memᴰ.tail m) h = elim (Bool-cases (test y)) [
    | inl e ↦ rw e (let k = length-keep_fails xs m h in omega (arith, k))
    | inr e ↦ rw e (let k = length-keep xs in omega (arith, k))
  ]

module _ (sizes : List ℕ) (max_cases : ℤ) where
  abbrev made : List Pair → Pair → List Pair → List ℕ
  made pairs p uncovered = next_row sizes (least p pairs) uncovered

  -- What one round of the loop went on with, if it returned rows.
  record Round (fuel : ℕ) (p : Pair) (pairs : List Pair) (rows result : List (List ℕ))
      : Type 0 where
    full_row : length (made pairs p (p ∷ pairs)) ≡ length sizes
    in_limit : lt_int max_cases (pos (length (rows ++ made pairs p (p ∷ pairs) ∷ []))) ≡ false
    further :
        cover fuel sizes max_cases
          (discard (row_pairs 0 (made pairs p (p ∷ pairs))) (p ∷ pairs))
          (rows ++ made pairs p (p ∷ pairs) ∷ [])
        ≡ ok result

  Round-cover :
      (fuel : ℕ) (p : Pair) (pairs : List Pair) (rows result : List (List ℕ))
      → cover (suc fuel) sizes max_cases (p ∷ pairs) rows ≡ ok result
      → Round fuel p pairs rows result
  unfolding cover
  Round-cover fuel p pairs rows result h =
      let row = made pairs p (p ∷ pairs) in
      elim (Bool-cases (eq_nat (length row) (length sizes))) [
        | inr e ↦ let failed : err construction_failure ≡ ok result = rw e at h in cc
        | inl e ↦ elim (Bool-cases (lt_int max_cases (pos (length (rows ++ row ∷ []))))) [
          | inl f ↦ let failed : err requires_more_cases ≡ ok result = rw (e, f) at h in cc
          | inr f ↦ record {
            full_row = (eq_nat_iff _ _).0 e;
            in_limit = f;
            further = rw (e, f) at h;
          }
        ]
      ]

  -- Every open pair ends up in a row, and so does every pair of an earlier row.
  cover_covers :
      (fuel : ℕ) (uncovered : List Pair) (rows result : List (List ℕ)) (p : Pair)
      → cover fuel sizes max_cases uncovered rows ≡ ok result
      → Memᴰ p uncovered ⊎ IsCovered rows p
      → IsCovered result p
  unfolding cover
  cover_covers fuel [] rows result p h (inl m) = elim m [ ]
  cover_covers fuel [] rows result p h (inr c) = let same : rows ≡ result = cc in rw same at c
  cover_covers zero (q ∷ pairs) rows result p h c = cc
  cover_covers (suc fuel) (q ∷ pairs) rows result p h c =
      let round = Round-cover fuel q pairs rows result h in
      let row = made pairs q (q ∷ pairs) in
      let on =
        cover_covers fuel (discard (row_pairs 0 row) (q ∷ pairs)) (rows ++ row ∷ []) result p
          round.further in
      elim c [
        | inr earlier ↦ on (
            inr (record {
              row = earlier.row;
              there = mem_append_left rows (row ∷ []) earlier.there;
              covers = earlier.covers;
            }))
        | inl m ↦ elim (discarded_or_left (row_pairs 0 row) (q ∷ pairs) p m) [
          | inl now ↦ on (
              inr (record {
                row = row;
                there = mem_append_right rows (row ∷ []) (Memᴰ.head refl);
                covers = Covers-row_pairs row p now;
              }))
          | inr left ↦ on (inl left)
        ]
      ]

  abbrev Bounded : List (List ℕ) → Type 0
  Bounded rows =
      (lt_int max_cases (pos (length rows)) ≡ false)
      × ((row : List ℕ) → Memᴰ row rows → length row ≡ length sizes)

  cover_bounds :
      (fuel : ℕ) (uncovered : List Pair) (rows result : List (List ℕ))
      → cover fuel sizes max_cases uncovered rows ≡ ok result
      → Bounded rows
      → Bounded result
  unfolding cover
  cover_bounds fuel [] rows result h bounded =
      let same : rows ≡ result = cc in subst Bounded same bounded
  cover_bounds zero (q ∷ pairs) rows result h bounded = cc
  cover_bounds (suc fuel) (q ∷ pairs) rows result h (limit, full) =
      let round = Round-cover fuel q pairs rows result h in
      let row = made pairs q (q ∷ pairs) in
      cover_bounds fuel (discard (row_pairs 0 row) (q ∷ pairs)) (rows ++ row ∷ []) result
        round.further
        (
          round.in_limit,
          λ r m. elim (mem_append_cases rows (row ∷ []) m) [
            | inl earlier ↦ full r earlier
            | inr last ↦ only r last round.full_row
          ],
        )
    where
      only :
          (r : List ℕ)
          → Memᴰ r (made pairs q (q ∷ pairs) ∷ [])
          → length (made pairs q (q ∷ pairs)) ≡ length sizes
          → length r ≡ length sizes
      only r (Memᴰ.head same) h = rw same h
      only r (Memᴰ.tail m) h = elim m [ ]

-- At any limit, the loop comes to the same rows, unless these are more than the limit; then it
-- stops. It tests the limit only behind a row that it adds.
abbrev pub KeepsTo :
    ℤ → List (List ℕ) → List (List ℕ) → MatrixError → Result MatrixError (List (List ℕ)) → Type 0
KeepsTo max_cases begun rows error found =
    ((found ≡ ok rows) × ((lt_int max_cases (pos (length rows)) ≡ false) ⊎ (rows ≡ begun)))
    ⊎ ((found ≡ err error) × (lt_int max_cases (pos (length rows)) ≡ true))

module _ (sizes : List ℕ) where
  -- The fuel is not used up, and no row lacks a value.
  pub cover_ends :
      (fuel : ℕ) (uncovered : List Pair) (rows : List (List ℕ))
      → length uncovered ≤ fuel
      → ((p : Pair) → Memᴰ p uncovered → IsPlaced 0 (length sizes) p)
      → (result : List (List ℕ)) × (length rows ≤ length result)
        × ((max_cases : ℤ)
            → KeepsTo max_cases rows result requires_more_cases
                (cover fuel sizes max_cases uncovered rows))
  unfolding cover
  cover_ends fuel [] rows enough placed = (rows, omega arith, λ max_cases. inl (refl, inr refl))
  cover_ends zero (q ∷ pairs) rows enough placed = absurd (omega (arith, enough))
  cover_ends (suc fuel) (q ∷ pairs) rows enough placed =
      let uncovered : List Pair = q ∷ pairs in
      let seed = least q pairs in
      let row = next_row sizes seed uncovered in
      let seed_there = mem_least q pairs in
      let seed_placed = placed seed seed_there in
      let full_row : eq_nat (length row) (length sizes) ≡ true =
        (eq_nat_iff _ _).1 (length-next_row sizes seed uncovered seed_placed) in
      let seed_covered =
        row_pairs-Covers row seed seed_placed.ordered
          (Covers-next_row sizes seed uncovered seed_placed) in
      let dropped : not (has_pair (row_pairs 0 row) seed) ≡ false =
        ap not (
          any_of_mem (λ p. same_pair p seed) (row_pairs 0 row) seed_covered
            (same_pair_refl seed)) in
      let shorter =
        length-keep_fails (λ p. not (has_pair (row_pairs 0 row) p)) uncovered seed_there dropped in
      let (result, longer, ends) =
        cover_ends fuel (discard (row_pairs 0 row) uncovered) (rows ++ row ∷ [])
          (omega (arith, shorter, enough))
          (λ p m. placed p (mem_of_keep (λ x. not (has_pair (row_pairs 0 row) x)) uncovered m).0) in
      let added = length-append {0} rows (row ∷ []) in
      (
        result,
        omega arith,
        λ max_cases. elim (Bool-cases (lt_int max_cases (pos (length (rows ++ row ∷ []))))) [
          | inl over ↦ rw (full_row, over) (inr (refl, lt_int-le max_cases _ _ over longer))
          | inr fits ↦
              rw (full_row, fits)
                (later max_cases rows (rows ++ row ∷ []) result _ fits (ends max_cases))
        ],
      )
    where
      lt_int-le : (m : ℤ) (a b : ℕ) → lt_int m (pos a) ≡ true → a ≤ b → lt_int m (pos b) ≡ true
      lt_int-le (pos n) a b h k = ground arith
      lt_int-le (negsuc n) a b h k = ground arith

      later :
          (max_cases : ℤ) (begun made result : List (List ℕ))
          (found : Result MatrixError (List (List ℕ)))
          → lt_int max_cases (pos (length made)) ≡ false
          → KeepsTo max_cases made result requires_more_cases found
          → KeepsTo max_cases begun result requires_more_cases found
      later max_cases begun made result found fits (inl (e, inl within)) = inl (e, inl within)
      later max_cases begun made result found fits (inl (e, inr same)) = inl (e, inl (rw same fits))
      later max_cases begun made result found fits (inr over) = inr over

pub IsPairwise-cover :
    (sizes : List ℕ) (limit : ℕ) (rows : List (List ℕ))
    → cover (length (all_pairs 0 sizes)) sizes (pos limit) (all_pairs 0 sizes) [] ≡ ok rows
    → IsPairwise sizes (pos limit) rows
IsPairwise-cover sizes limit rows h =
    let (within, full) =
      cover_bounds sizes (pos limit) (length (all_pairs 0 sizes)) (all_pairs 0 sizes) [] rows h
        (ground arith, λ row m. elim m [ ]) in
    record {
      within_limit = within;
      full = full;
      every_pair = λ p is_pair.
          cover_covers sizes (pos limit) (length (all_pairs 0 sizes)) (all_pairs 0 sizes) [] rows p
            h (inl (IsPair-all_pairs sizes p is_pair));
    }

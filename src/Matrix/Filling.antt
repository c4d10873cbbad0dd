-- ===== src/Matrix/Filling.antt =====
-- The row that src/ddsleuth/matrix.py makes for a seed has one value for each dimension, and the
-- seed's values.
use ddsleuth.Matrix.{
  Pair, Row, best, choose, completed, fill, is_chosen, next_row, put, range, seeded, unchosen,
}
use ddsleuth.Matrix.Pairs.{Covers}
use ddsleuth.Prelude.{
  Bool-cases, List, Option, [], ap, arith, false≢true, get_elem?, inl, inr, length, negsuc, none,
  refl, some, suc, sym, true, zero, zero-add, ℕ, ◌+◌, ◌<◌, ◌∙◌, ◌∷◌, ◌≡◌, ◌≢◌, ◌≤◌,
}
use ddsleuth.Matrix.Placing.{IsPlaced}

-- The row has the value at the position.
abbrev pub Chosen : Row → ℕ → ℕ → Type 0
Chosen row n v = get_elem? row n ≡ some (some v)

length-put : (n v : ℕ) (row : Row) → length (put n v row) ≡ length row
length-put n v [] = refl
length-put zero v (x ∷ row) = refl
length-put (suc n) v (x ∷ row) = ap suc (length-put n v row)

put_here : (n v : ℕ) (row : Row) → n < length row → Chosen (put n v row) n v
put_here n v [] h = absurd (omega (arith, h))
put_here zero v (x ∷ row) h = refl
put_here (suc n) v (x ∷ row) h = put_here n v row (omega (arith, h))

put_other : (n k v : ℕ) (row : Row) → n ≢ k → get_elem? (put n v row) k ≡ get_elem? row k
put_other n k v [] h = refl
put_other zero zero v (x ∷ row) h = absurd (h refl)
put_other zero (suc k) v (x ∷ row) h = refl
put_other (suc n) zero v (x ∷ row) h = refl
put_other (suc n) (suc k) v (x ∷ row) h = put_other n k v row (λ e. h (ap suc e))

length-unchosen : (n : ℕ) → length (unchosen n) ≡ n
length-unchosen zero = refl
length-unchosen (suc n) = ap suc (length-unchosen n)

module _ (uncovered : List Pair) where
  length-choose :
      (index size : ℕ) (row : Row) → length (choose uncovered index size row) ≡ length row
  length-choose index size row = elim (Bool-cases (is_chosen (get_elem? row index))) [
    | inl e ↦ rw (e, choose) refl
    | inr e ↦ rw (e, choose) (length-put index _ row)
  ]

  choose_keeps :
      (index size k v : ℕ) (row : Row)
      → Chosen row k v
      → Chosen (choose uncovered index size row) k v
  choose_keeps index size k v row h = elim (Bool-cases (is_chosen (get_elem? row index))) [
    | inl e ↦ rw (e, choose) h
    | inr e ↦
        let other : index ≢ k = λ same.
          let chosen : is_chosen (get_elem? row index) ≡ true = rw (same, h) refl in
          false≢true (sym e ∙ chosen) in
        rw (e, choose) (put_other index k _ row other ∙ h)
  ]

  chosen_value : (o : Option (Option ℕ)) → is_chosen o ≡ true → (v : ℕ) × (o ≡ some (some v))
  chosen_value none h = cc
  chosen_value (some none) h = cc
  chosen_value (some (some v)) h = (v, refl)

  choose_fills :
      (index size : ℕ) (row : Row)
      → index < length row
      → (v : ℕ) × Chosen (choose uncovered index size row) index v
  choose_fills index size row h = elim (Bool-cases (is_chosen (get_elem? row index))) [
    | inl e ↦ let (v, at) = chosen_value (get_elem? row index) e in (v, rw (e, choose) at)
    | inr e ↦ (
      (best uncovered index row (range size) (0, negsuc 0)).0,
      rw (e, choose) (put_here index (best uncovered index row (range size) (0, negsuc 0)).0 row h),
    )
  ]

  length-fill :
      (index : ℕ) (sizes : List ℕ) (row : Row)
      → length (fill uncovered index sizes row) ≡ length row
  unfolding fill
  length-fill index [] row = refl
  length-fill index (size ∷ sizes) row =
      length-fill (suc index) sizes (choose uncovered index size row) ∙ length-choose index size row

  fill_keeps :
      (index k v : ℕ) (sizes : List ℕ) (row : Row)
      → Chosen row k v
      → Chosen (fill uncovered index sizes row) k v
  unfolding fill
  fill_keeps index k v [] row h = h
  fill_keeps index k v (size ∷ sizes) row h =
      fill_keeps (suc index) k v sizes (choose uncovered index size row)
        (choose_keeps index size k v row h)

  fill_fills :
      (index k : ℕ) (sizes : List ℕ) (row : Row)
      → k < length sizes
      → index + length sizes ≤ length row
      → (v : ℕ) × Chosen (fill uncovered index sizes row) (index + k) v
  unfolding fill
  fill_fills index k [] row h room = absurd (omega (arith, h))
  fill_fills index zero (size ∷ sizes) row h room =
      let (v, at) = choose_fills index size row (omega (arith, room)) in
      let shift : index + 0 ≡ index = omega arith in
      (v, rw shift (fill_keeps (suc index) index v sizes (choose uncovered index size row) at))
  fill_fills index (suc k) (size ∷ sizes) row h room =
      let same = length-choose index size row in
      let (v, at) =
        fill_fills (suc index) k sizes (choose uncovered index size row) (omega (arith, h))
          (omega (arith, room, same)) in
      let shift : index + suc k ≡ suc index + k = omega arith in (v, rw shift at)

length-completed :
    (row : Row)
    → ((k : ℕ) → k < length row → (v : ℕ) × Chosen row k v)
    → length (completed row) ≡ length row
length-completed [] all = refl
length-completed (none ∷ row) all = let (v, at) = all 0 (omega arith) in cc
length-completed (some w ∷ row) all =
    ap suc (length-completed row (λ k h. all (suc k) (omega (arith, h))))

get_elem?-completed :
    (row : Row) (k v : ℕ)
    → ((j : ℕ) → j < length row → (w : ℕ) × Chosen row j w)
    → Chosen row k v
    → get_elem? (completed row) k ≡ some v
get_elem?-completed [] k v all at = cc
get_elem?-completed (none ∷ row) k v all at = let (w, here) = all 0 (omega arith) in cc
get_elem?-completed (some w ∷ row) zero v all at = let same : some w ≡ some v = cc in same
get_elem?-completed (some w ∷ row) (suc k) v all at =
    get_elem?-completed row k v (λ j h. all (suc j) (omega (arith, h))) at

module _ (sizes : List ℕ) (seed : Pair) (uncovered : List Pair)
    (placed : IsPlaced 0 (length sizes) seed) where
  abbrev filled : Row
  filled = fill uncovered 0 sizes (seeded (length sizes) seed)

  length-seeded : length (seeded (length sizes) seed) ≡ length sizes
  length-seeded =
      length-put seed.right seed.right_value _
      ∙ length-put seed.left seed.left_value (unchosen (length sizes))
      ∙ length-unchosen (length sizes)

  length-filled : length filled ≡ length sizes
  length-filled = length-fill uncovered 0 sizes (seeded (length sizes) seed) ∙ length-seeded

  every-Chosen : (k : ℕ) → k < length filled → (v : ℕ) × Chosen filled k v
  every-Chosen k h =
      let (v, at) =
        fill_fills uncovered 0 k sizes (seeded (length sizes) seed)
          (omega (arith, h, length-filled)) (omega (arith, length-seeded)) in
      let shift : 0 + k ≡ k = zero-add k in (v, rw shift at at)

  pub length-next_row : length (next_row sizes seed uncovered) ≡ length sizes
  length-next_row = length-completed filled every-Chosen ∙ length-filled

  -- The completed row covers its seed.
  pub Covers-next_row : Covers (next_row sizes seed uncovered) seed
  Covers-next_row =
      let ordered = placed.ordered in
      let below = placed.below in
      let room = length-unchosen (length sizes) in
      let started = put seed.left seed.left_value (unchosen (length sizes)) in
      let started_length = length-put seed.left seed.left_value (unchosen (length sizes)) ∙ room in
      let left : Chosen (seeded (length sizes) seed) seed.left seed.left_value =
        put_other seed.right seed.left seed.right_value started
          (λ e. absurd (omega (arith, ordered, e)))
        ∙ put_here seed.left seed.left_value (unchosen (length sizes))
            (omega (arith, ordered, below, room)) in
      let right : Chosen (seeded (length sizes) seed) seed.right seed.right_value =
        put_here seed.right seed.right_value started (omega (arith, below, started_length)) in
      record {
        left_chosen =
            get_elem?-completed filled seed.left seed.left_value every-Chosen
              (fill_keeps uncovered 0 seed.left seed.left_value sizes _ left);
        right_chosen =
            get_elem?-completed filled seed.right seed.right_value every-Chosen
              (fill_keeps uncovered 0 seed.right seed.right_value sizes _ right);
      }

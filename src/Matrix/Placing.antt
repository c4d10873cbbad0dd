-- ===== src/Matrix/Placing.antt =====
-- Which pairs of values src/ddsleuth/matrix.py lists.
use ddsleuth.Matrix.{Pair, all_pairs, pairs_of_value, range, value_pairs, with_rights}
use ddsleuth.Matrix.Pairs.{pair}
use ddsleuth.Prelude.{
  List, Memᴰ, [], ap, arith, inl, inr, length, mem_append_cases, mem_of_map, suc, ℕ, ◌+◌, ◌<◌, ◌∷◌,
  ◌≡◌, ◌≤◌,
}

-- The pair is of two dimensions below the bound, the first one first, from `base` on.
pub record IsPlaced (base bound : ℕ) (p : Pair) : Type 0 where
  pub from_base : base ≤ p.left
  pub ordered : p.left < p.right
  pub below : p.right < bound

IsPlaced-value_pairs :
    (left right : ℕ) (left_values right_values : List ℕ) (p : Pair)
    → Memᴰ p (value_pairs left left_values right right_values)
    → (p.left ≡ left) × (p.right ≡ right)
IsPlaced-value_pairs left right [] rights p m = elim m [ ]
IsPlaced-value_pairs left right (v ∷ values) rights p m =
    elim (mem_append_cases (pairs_of_value left v right rights) _ m) [
      | inl here ↦
          let (w, _, same) = mem_of_map (λ value. pair left v right value) rights here in
          (ap (λ (q : Pair). q.left) same, ap (λ (q : Pair). q.right) same)
      | inr later ↦ IsPlaced-value_pairs left right values rights p later
    ]

IsPlaced-with_rights :
    (left size right : ℕ) (sizes : List ℕ) (p : Pair)
    → Memᴰ p (with_rights left size right sizes)
    → (p.left ≡ left) × (right ≤ p.right) × (p.right < right + length sizes)
IsPlaced-with_rights left size right [] p m = elim m [ ]
IsPlaced-with_rights left size right (other ∷ sizes) p m =
    elim (mem_append_cases (value_pairs left (range size) right (range other)) _ m) [
      | inl here ↦
          let (l, r) = IsPlaced-value_pairs left right (range size) (range other) p here in
          (l, omega (arith, r), omega (arith, r))
      | inr later ↦
          let (l, low, high) = IsPlaced-with_rights left size (suc right) sizes p later in
          (l, omega (arith, low), omega (arith, high))
    ]

pub IsPlaced-all_pairs :
    (base : ℕ) (sizes : List ℕ) (p : Pair)
    → Memᴰ p (all_pairs base sizes)
    → IsPlaced base (base + length sizes) p
IsPlaced-all_pairs base [] p m = elim m [ ]
IsPlaced-all_pairs base (size ∷ sizes) p m =
    elim (mem_append_cases (with_rights base size (suc base) sizes) _ m) [
      | inl here ↦
          let (l, low, high) = IsPlaced-with_rights base size (suc base) sizes p here in
          record {
            from_base = omega (arith, l);
            ordered = omega (arith, l, low);
            below = omega (arith, high);
          }
      | inr later ↦
          let q = IsPlaced-all_pairs (suc base) sizes p later in
          let low = q.from_base in
          let high = q.below in
          record {
            from_base = omega (arith, low);
            ordered = q.ordered;
            below = omega (arith, high);
          }
    ]

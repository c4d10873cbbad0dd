-- ===== src/Matrix/Pairs.antt =====
-- What the sets of pairs of src/ddsleuth/matrix.py hold.
use ddsleuth.Matrix.{Pair, all_pairs, pairs_of_value, range, value_pairs, with_rights}
use ddsleuth.Prelude.{
  Bool-cases, List, Memᴰ, [], arith, get_elem?, inl, inr, ltb, ltb→lt, map_mem, mem_append_left,
  mem_append_right, some, suc, sym, zero, zero-add, ℕ, ◌+◌, ◌<◌, ◌∷◌, ◌≡◌,
}

-- Two dimensions, the first one first, and a value of each.
pub record IsPair (sizes : List ℕ) (p : Pair) : Type 0 where
  pub apart : p.left < p.right
  pub left_size : ℕ
  pub left_there : get_elem? sizes p.left ≡ some left_size
  pub left_in : p.left_value < left_size
  pub right_size : ℕ
  pub right_there : get_elem? sizes p.right ≡ some right_size
  pub right_in : p.right_value < right_size

-- The row has both values of the pair.
pub record Covers (row : List ℕ) (p : Pair) : Type 0 where
  pub left_chosen : get_elem? row p.left ≡ some p.left_value
  pub right_chosen : get_elem? row p.right ≡ some p.right_value

abbrev pub pair : ℕ → ℕ → ℕ → ℕ → Pair
pair left left_value right right_value = record {
  left = left;
  left_value = left_value;
  right = right;
  right_value = right_value;
}

mem_range : (n v : ℕ) → v < n → Memᴰ v (range n)
mem_range zero v h = absurd (omega (arith, h))
mem_range (suc n) v h = elim (Bool-cases (ltb v n)) [
  | inl e ↦ mem_append_left (range n) (n ∷ []) (mem_range n v (ltb→lt v n e))
  | inr e ↦
      let at : v ≡ n = ground (arith, e, h) in mem_append_right (range n) (n ∷ []) (Memᴰ.head at)
]

mem_value_pairs :
    (left lv right rv : ℕ) (left_values right_values : List ℕ)
    → Memᴰ lv left_values
    → Memᴰ rv right_values
    → Memᴰ (pair left lv right rv) (value_pairs left left_values right right_values)
mem_value_pairs left lv right rv [] rights m n = elim m [ ]
mem_value_pairs left lv right rv (v ∷ values) rights (Memᴰ.head e) n =
    mem_append_left (pairs_of_value left v right rights) _
      (rw e (map_mem (λ value. pair left v right value) rights n))
mem_value_pairs left lv right rv (v ∷ values) rights (Memᴰ.tail m) n =
    mem_append_right (pairs_of_value left v right rights) _
      (mem_value_pairs left lv right rv values rights m n)

mem_with_rights :
    (left size right b lv rv t : ℕ) (sizes : List ℕ)
    → get_elem? sizes b ≡ some t
    → lv < size
    → rv < t
    → Memᴰ (pair left lv (right + b) rv) (with_rights left size right sizes)
mem_with_rights left size right b lv rv t [] at h k = cc
mem_with_rights left size right zero lv rv t (x ∷ sizes) at h k =
    let same : x ≡ t = cc in
    let shift : right + 0 ≡ right = omega arith in
    mem_append_left (value_pairs left (range size) right (range x)) _ (
      rw (shift, same)
        (mem_value_pairs left lv right rv (range size) (range t) (mem_range size lv h)
          (mem_range t rv k)))
mem_with_rights left size right (suc b) lv rv t (x ∷ sizes) at h k =
    let shift : right + suc b ≡ suc right + b = omega arith in
    mem_append_right (value_pairs left (range size) right (range x)) _
      (rw shift (mem_with_rights left size (suc right) b lv rv t sizes at h k))

mem_all_pairs :
    (base a b s t lv rv : ℕ) (sizes : List ℕ)
    → get_elem? sizes a ≡ some s
    → get_elem? sizes b ≡ some t
    → a < b
    → lv < s
    → rv < t
    → Memᴰ (pair (base + a) lv (base + b) rv) (all_pairs base sizes)
mem_all_pairs base a b s t lv rv [] at bt h k l = cc
mem_all_pairs base zero zero s t lv rv (x ∷ sizes) at bt h k l = absurd (omega (arith, h))
mem_all_pairs base zero (suc b) s t lv rv (x ∷ sizes) at bt h k l =
    let same : x ≡ s = cc in
    let shift : base + 0 ≡ base = omega arith in
    let shift' : base + suc b ≡ suc base + b = omega arith in
    mem_append_left (with_rights base x (suc base) sizes) _
      (rw (shift, shift', same) (mem_with_rights base s (suc base) b lv rv t sizes bt k l))
mem_all_pairs base (suc a) zero s t lv rv (x ∷ sizes) at bt h k l = absurd (omega (arith, h))
mem_all_pairs base (suc a) (suc b) s t lv rv (x ∷ sizes) at bt h k l =
    let shift : base + suc a ≡ suc base + a = omega arith in
    let shift' : base + suc b ≡ suc base + b = omega arith in
    mem_append_right (with_rights base x (suc base) sizes) _ (
      rw (shift, shift')
        (mem_all_pairs (suc base) a b s t lv rv sizes at bt (omega (arith, h)) k l))

-- Every pair of the dimensions is in the initial set.
pub IsPair-all_pairs : (sizes : List ℕ) (p : Pair) → IsPair sizes p → Memᴰ p (all_pairs 0 sizes)
IsPair-all_pairs sizes p h =
    rw (sym (zero-add p.left), sym (zero-add p.right))
      (mem_all_pairs 0 p.left p.right h.left_size h.right_size p.left_value p.right_value sizes
        h.left_there h.right_there h.apart h.left_in h.right_in)

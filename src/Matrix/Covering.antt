-- ===== src/Matrix/Covering.antt =====
-- The rows that src/ddsleuth/matrix.py returns cover all pairs, and the loop ends.
use ddsleuth.Matrix.{Pair, before_pair, discard, has_pair, least, pairs_with, row_pairs, same_pair}
use ddsleuth.Matrix.Pairs.{Covers, pair}
use ddsleuth.Model.EventKind.{value}
use ddsleuth.Prelude.{
  Bool-cases, List, Memᴰ, [], and-true, ap, ap₂, arith, eq_nat, eq_nat_iff, get_elem?, inl, inr,
  keep_of_mem, mem_append_cases, mem_append_left, mem_append_right, mem_of_any, not, refl, some,
  subst, suc, sym, true, zero, zero-add, ℕ, ◌+◌, ◌<◌, ◌∙◌, ◌∷◌, ◌≡◌, ◌⊎◌,
}

pairs_with_sound :
    (left lv right : ℕ) (row : List ℕ) (p : Pair)
    → Memᴰ p (pairs_with left lv right row)
    → (b : ℕ) × (p ≡ pair left lv (right + b) p.right_value)
      × (get_elem? row b ≡ some p.right_value)
pairs_with_sound left lv right [] p m = elim m [ ]
pairs_with_sound left lv right (value ∷ row) p (Memᴰ.head e) =
    let shift : right ≡ right + 0 = omega arith in
    let v : p.right_value ≡ value = ap (λ (q : Pair). q.right_value) e in
    (0, e ∙ ap₂ (λ r w. pair left lv r w) shift (sym v), ap some (sym v))
pairs_with_sound left lv right (value ∷ row) p (Memᴰ.tail m) =
    let (b, same, at) = pairs_with_sound left lv (suc right) row p m in
    let shift : suc right + b ≡ right + suc b = omega arith in
    (suc b, same ∙ ap (λ r. pair left lv r p.right_value) shift, at)

-- Both values of the pair stand in the row, whose first position counts as `base`.
record Stands (base : ℕ) (row : List ℕ) (p : Pair) : Type 0 where
  one : ℕ
  other : ℕ
  left_at : p.left ≡ base + one
  right_at : p.right ≡ base + other
  left_value : get_elem? row one ≡ some p.left_value
  right_value : get_elem? row other ≡ some p.right_value

Stands-row_pairs :
    (base : ℕ) (row : List ℕ) (p : Pair) → Memᴰ p (row_pairs base row) → Stands base row p
Stands-row_pairs base [] p m = elim m [ ]
Stands-row_pairs base (value ∷ row) p m =
    elim (mem_append_cases (pairs_with base value (suc base) row) _ m) [
      | inl here ↦
          let (b, same, at) = pairs_with_sound base value (suc base) row p here in
          let shift : suc base + b ≡ base + suc b = omega arith in
          record {
            one = 0;
            other = suc b;
            left_at = ap (λ (q : Pair). q.left) same ∙ (omega arith);
            right_at = ap (λ (q : Pair). q.right) same ∙ shift;
            left_value = ap (λ (q : Pair). some q.left_value) (sym same);
            right_value = at;
          }
      | inr later ↦
          let s = Stands-row_pairs (suc base) row p later in
          let l = s.left_at in
          let r = s.right_at in
          record {
            one = suc s.one;
            other = suc s.other;
            left_at = omega (arith, l);
            right_at = omega (arith, r);
            left_value = s.left_value;
            right_value = s.right_value;
          }
    ]

pub Covers-row_pairs : (row : List ℕ) (p : Pair) → Memᴰ p (row_pairs 0 row) → Covers row p
Covers-row_pairs row p m =
    let s = Stands-row_pairs 0 row p m in
    record {
      left_chosen = ap (get_elem? row) (s.left_at ∙ zero-add s.one) ∙ s.left_value;
      right_chosen = ap (get_elem? row) (s.right_at ∙ zero-add s.other) ∙ s.right_value;
    }

mem_pairs_with :
    (left lv right b rv : ℕ) (row : List ℕ)
    → get_elem? row b ≡ some rv
    → Memᴰ (pair left lv (right + b) rv) (pairs_with left lv right row)
mem_pairs_with left lv right b rv [] at = cc
mem_pairs_with left lv right zero rv (value ∷ row) at =
    let same : rv ≡ value = cc in
    let shift : right + 0 ≡ right = omega arith in
    Memᴰ.head (ap₂ (λ r w. pair left lv r w) shift same)
mem_pairs_with left lv right (suc b) rv (value ∷ row) at =
    let shift : right + suc b ≡ suc right + b = omega arith in
    Memᴰ.tail (rw shift (mem_pairs_with left lv (suc right) b rv row at))

mem_row_pairs :
    (base a b lv rv : ℕ) (row : List ℕ)
    → a < b
    → get_elem? row a ≡ some lv
    → get_elem? row b ≡ some rv
    → Memᴰ (pair (base + a) lv (base + b) rv) (row_pairs base row)
mem_row_pairs base a b lv rv [] h at bt = cc
mem_row_pairs base zero zero lv rv (value ∷ row) h at bt = absurd (omega (arith, h))
mem_row_pairs base zero (suc b) lv rv (value ∷ row) h at bt =
    let same : value ≡ lv = cc in
    let shift : base + 0 ≡ base = omega arith in
    let shift' : base + suc b ≡ suc base + b = omega arith in
    mem_append_left (pairs_with base value (suc base) row) _
      (rw (shift, shift', same) (mem_pairs_with base lv (suc base) b rv row bt))
mem_row_pairs base (suc a) zero lv rv (value ∷ row) h at bt = absurd (omega (arith, h))
mem_row_pairs base (suc a) (suc b) lv rv (value ∷ row) h at bt =
    let shift : base + suc a ≡ suc base + a = omega arith in
    let shift' : base + suc b ≡ suc base + b = omega arith in
    mem_append_right (pairs_with base value (suc base) row) _
      (rw (shift, shift') (mem_row_pairs (suc base) a b lv rv row (omega (arith, h)) at bt))

pub row_pairs-Covers :
    (row : List ℕ) (p : Pair) → p.left < p.right → Covers row p → Memᴰ p (row_pairs 0 row)
row_pairs-Covers row p h c =
    rw (sym (zero-add p.left), sym (zero-add p.right))
      (mem_row_pairs 0 p.left p.right p.left_value p.right_value row h c.left_chosen c.right_chosen)

same_pair_sound : (p q : Pair) → same_pair p q ≡ true → p ≡ q
same_pair_sound p q h =
    let (l, more) = and-true (eq_nat p.left q.left) _ h in
    let (lv, more) = and-true (eq_nat p.left_value q.left_value) _ more in
    let (r, rv) = and-true (eq_nat p.right q.right) _ more in
    λ i. record {
      left = (eq_nat_iff p.left q.left).0 l i;
      left_value = (eq_nat_iff p.left_value q.left_value).0 lv i;
      right = (eq_nat_iff p.right q.right).0 r i;
      right_value = (eq_nat_iff p.right_value q.right_value).0 rv i;
    }

pub same_pair_refl : (p : Pair) → same_pair p p ≡ true
same_pair_refl p = ground arith

mem_of_has_pair : (pairs : List Pair) (p : Pair) → has_pair pairs p ≡ true → Memᴰ p pairs
mem_of_has_pair pairs p h =
    let (q, m, same) = mem_of_any (λ q. same_pair q p) pairs h in
    subst (λ x. Memᴰ x pairs) (same_pair_sound q p same) m

pub discarded_or_left :
    (pairs uncovered : List Pair) (p : Pair)
    → Memᴰ p uncovered
    → Memᴰ p pairs ⊎ Memᴰ p (discard pairs uncovered)
discarded_or_left pairs uncovered p m = elim (Bool-cases (has_pair pairs p)) [
  | inl e ↦ inl (mem_of_has_pair pairs p e)
  | inr e ↦ inr (keep_of_mem (λ q. not (has_pair pairs q)) uncovered m (rw e refl))
]

pub mem_least : (p : Pair) (pairs : List Pair) → Memᴰ (least p pairs) (p ∷ pairs)
mem_least p [] = Memᴰ.head refl
mem_least p (q ∷ pairs) = elim (Bool-cases (before_pair q p)) [
  | inl e ↦ rw (e, least) (Memᴰ.tail (mem_least q pairs))
  | inr e ↦ rw (e, least) (skip_second (mem_least p pairs))
]
  where
    skip_second : {x : Pair} → Memᴰ x (p ∷ pairs) → Memᴰ x (p ∷ q ∷ pairs)
    skip_second (Memᴰ.head same) = Memᴰ.head same
    skip_second (Memᴰ.tail m) = Memᴰ.tail (Memᴰ.tail m)

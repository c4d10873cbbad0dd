-- ===== src/Prelude/TextOrder.antt =====
-- The order of texts is total.
use Prim.Native.Char.{code}
use Prim.Native.Nat.{ℕ, Ordering, suc, zero, compare as compare_ℕ}
use Prim.Native.Nat.compare as compare_ℕ
use Prim.Native.String.{String, [], ◌∷◌, then, compare}
use Prim.Native.String.compare
use mathlib.Core.Path.{◌≡◌, ap, ap₂, refl, sym, ◌∙◌}
use mathlib.Core.Bool.{false, true}
use text.Mathlib.TextEquality.{path_by_compare}
use ddsleuth.Prelude.Sets.{lt_str}

abbrev flipped : Ordering → Ordering
flipped Ordering.lt = Ordering.gt
flipped Ordering.eq = Ordering.eq
flipped Ordering.gt = Ordering.lt

flipped-then : (o r : Ordering) → flipped (then o r) ≡ then (flipped o) (flipped r)
flipped-then Ordering.lt r = refl
flipped-then Ordering.eq r = refl
flipped-then Ordering.gt r = refl

compare_ℕ-flipped : (m n : ℕ) → compare_ℕ n m ≡ flipped (compare_ℕ m n)
compare_ℕ-flipped zero zero = compare_ℕ.zero-zero ∙ ap flipped (sym compare_ℕ.zero-zero)
compare_ℕ-flipped zero (suc n) = compare_ℕ.suc-zero n ∙ ap flipped (sym (compare_ℕ.zero-suc n))
compare_ℕ-flipped (suc m) zero = compare_ℕ.zero-suc m ∙ ap flipped (sym (compare_ℕ.suc-zero m))
compare_ℕ-flipped (suc m) (suc n) =
    compare_ℕ.suc-suc n m ∙ compare_ℕ-flipped m n ∙ ap flipped (sym (compare_ℕ.suc-suc m n))

compare-flipped : (s t : String) → compare t s ≡ flipped (compare s t)
compare-flipped [] [] = compare.nil-nil ∙ ap flipped (sym compare.nil-nil)
compare-flipped [] (d ∷ t) = compare.cons-nil d t ∙ ap flipped (sym (compare.nil-cons d t))
compare-flipped (c ∷ s) [] = compare.nil-cons c s ∙ ap flipped (sym (compare.cons-nil c s))
compare-flipped (c ∷ s) (d ∷ t) =
    compare.cons-cons d c t s
    ∙ ap₂ then (compare_ℕ-flipped (code c) (code d)) (compare-flipped s t)
    ∙ sym (flipped-then (compare_ℕ (code c) (code d)) (compare s t))
    ∙ ap flipped (sym (compare.cons-cons c d s t))

pub lt_str-total : (s t : String) → lt_str s t ≡ false → lt_str t s ≡ false → s ≡ t
lt_str-total s t h k = path_by_compare s t (neither (compare s t) refl)
  where
    neither : (o : Ordering) → compare s t ≡ o → compare s t ≡ Ordering.eq
    neither Ordering.eq e = e
    neither Ordering.lt e = let less : lt_str s t ≡ true = rw (e, lt_str) refl in cc
    neither Ordering.gt e =
        let flip : compare t s ≡ Ordering.lt = compare-flipped s t ∙ ap flipped e in
        let less : lt_str t s ≡ true = rw (flip, lt_str) refl in cc

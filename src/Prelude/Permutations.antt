-- ===== src/Prelude/Permutations.antt =====
-- `itertools.permutations`.
use Prim.Native.Nat.{ℕ, zero, suc}
use mathlib.Core.Path.{◌≡◌, refl, ap, subst, sym, ◌∙◌}
use mathlib.Core.Logic.{◌↔◌}
use mathlib.Core.List.{List, [], ◌∷◌, ◌++◌, map, Memᴰ}
use native.Mathlib.Omega.{arith}
use ddsleuth.Prelude.Lists.{length, length-append}
use ddsleuth.Prelude.Any.{map_mem, mem_of_map}
use ddsleuth.Prelude.Combinations.{concat_map, mem_concat_map, mem_of_concat_map}

module _ {ℓ} {A : Type ℓ} where
  -- Each element with those that it leaves.
  abbrev pub picks : List A → List (A × List A)
  picks [] = []
  picks (x ∷ xs) = (x, xs) ∷ map (λ (pick : A × List A). (pick.0, x ∷ pick.1)) (picks xs)

  permutations_of : ℕ → List A → List (List A)
  permutations_of zero xs = [] ∷ []
  permutations_of (suc n) xs =
      concat_map (λ (pick : A × List A). map (λ rest. pick.0 ∷ rest) (permutations_of n pick.1))
        (picks xs)

  -- `itertools.permutations(xs)`, in its order
  unfoldable pub permutations : List A → List (List A)
  unfolding permutations_of
  permutations xs = permutations_of (length xs) xs

  -- Its first element is one of the others, and the rest is a permutation of what that leaves.
  abbrev pub IsPermutation : List A → List A → Type ℓ
  IsPermutation [] xs = xs ≡ []
  IsPermutation (y ∷ ys) xs =
      (us : List A) × (vs : List A) × (xs ≡ us ++ y ∷ vs) × IsPermutation ys (us ++ vs)

  abbrev IsPick : List A → A × List A → Type ℓ
  IsPick xs pick = (us : List A) × (vs : List A) × (xs ≡ us ++ pick.0 ∷ vs) × (pick.1 ≡ us ++ vs)

  IsPick-of_mem : (pick : A × List A) (xs : List A) → Memᴰ pick (picks xs) → IsPick xs pick
  IsPick-of_mem pick [] m = elim m [ ]
  IsPick-of_mem pick (x ∷ xs) (Memᴰ.head e) = (
    [],
    xs,
    ap (λ y. y ∷ xs) (ap (λ (p : A × List A). p.0) (sym e)),
    ap (λ (p : A × List A). p.1) e,
  )
  IsPick-of_mem pick (x ∷ xs) (Memᴰ.tail m) =
      let (inner, there, same) = mem_of_map (λ (p : A × List A). (p.0, x ∷ p.1)) (picks xs) m in
      let (us, vs, whole, left) = IsPick-of_mem inner xs there in
      (
        x ∷ us,
        vs,
        ap (λ rest. x ∷ rest)
            (whole ∙ ap (λ y. us ++ y ∷ vs) (ap (λ (p : A × List A). p.0) (sym same))),
        ap (λ (p : A × List A). p.1) same ∙ ap (λ rest. x ∷ rest) left,
      )

  mem_of_pick : (us : List A) (y : A) (vs : List A) → Memᴰ (y, us ++ vs) (picks (us ++ y ∷ vs))
  mem_of_pick [] y vs = Memᴰ.head refl
  mem_of_pick (u ∷ us) y vs =
      Memᴰ.tail
        (map_mem (λ (p : A × List A). (p.0, u ∷ p.1)) (picks (us ++ y ∷ vs)) (mem_of_pick us y vs))

  IsPermutation-of_mem :
      (n : ℕ) (order xs : List A)
      → n ≡ length xs
      → Memᴰ order (permutations_of n xs)
      → IsPermutation order xs
  unfolding permutations_of
  IsPermutation-of_mem zero order [] e (Memᴰ.head same) =
      subst (λ o. IsPermutation o []) (sym same) refl
  IsPermutation-of_mem zero order [] e (Memᴰ.tail m) = elim m [ ]
  IsPermutation-of_mem zero order (x ∷ xs) e m = absurd (omega arith)
  IsPermutation-of_mem (suc n) order xs e m =
      let (pick, picked, there) = mem_of_concat_map _ (picks xs) m in
      let (rest, permuted, same) =
        mem_of_map (λ rest. pick.0 ∷ rest) (permutations_of n pick.1) there in
      let (us, vs, whole, left) = IsPick-of_mem pick xs picked in
      let shorter : n ≡ length pick.1 = omega (
        arith,
        ap length whole,
        ap length left,
        length-append {ℓ} us (pick.0 ∷ vs),
        length-append {ℓ} us vs,
      ) in
      subst (λ o. IsPermutation o xs) (sym same)
        (
          us,
          vs,
          whole,
          subst (IsPermutation rest) left (IsPermutation-of_mem n rest pick.1 shorter permuted),
        )

  mem_of_permutation :
      (n : ℕ) (order xs : List A)
      → n ≡ length xs
      → IsPermutation order xs
      → Memᴰ order (permutations_of n xs)
  unfolding permutations_of
  mem_of_permutation zero [] xs e p = Memᴰ.head refl
  mem_of_permutation zero (y ∷ ys) xs e (us, vs, whole, p) =
      absurd (omega (arith, ap length whole, length-append {ℓ} us (y ∷ vs)))
  mem_of_permutation (suc n) [] xs e p = absurd (omega (arith, ap length p))
  mem_of_permutation (suc n) (y ∷ ys) xs e (us, vs, whole, p) =
      let shorter : n ≡ length (us ++ vs) =
        omega (arith, ap length whole, length-append {ℓ} us (y ∷ vs), length-append {ℓ} us vs) in
      mem_concat_map _ (y, us ++ vs) (picks xs)
        (subst (λ zs. Memᴰ (y, us ++ vs) (picks zs)) (sym whole) (mem_of_pick us y vs))
        (map_mem (λ rest. y ∷ rest) _ (mem_of_permutation n ys (us ++ vs) shorter p))

  pub permutations_iff : (order xs : List A) → Memᴰ order (permutations xs) ↔ IsPermutation order xs
  unfolding permutations
  permutations_iff order xs =
      (IsPermutation-of_mem (length xs) order xs refl, mem_of_permutation (length xs) order xs refl)

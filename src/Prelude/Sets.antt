-- ===== src/Prelude/Sets.antt =====
-- Python's `sorted` and `set`: lists put in order, with or without their repetitions.
use Prim.Native.Nat.{Ordering}
use Prim.Native.String.{String, compare}
use mathlib.Core.Bool.{Bool, true, false}
use mathlib.Core.List.{List, [], ◌∷◌}
use text.Mathlib.Text.{◌==◌}
use ddsleuth.Prelude.Tests.{if◌then◌else◌}
use ddsleuth.Prelude.Int.{ℤ, lt_int}
use ddsleuth.Prelude.Lists.{any}

-- Texts are ordered by their code points.
abbrev pub lt_str : String → String → Bool
lt_str a b = elim (compare a b) [ Ordering.lt ↦ true | _ ↦ false ]

module _ {ℓ} {A : Type ℓ} (lt : A → A → Bool) where
  abbrev pub insert_sorted : A → List A → List A
  insert_sorted x [] = x ∷ []
  insert_sorted x (y ∷ ys) = if lt y x then y ∷ insert_sorted x ys else x ∷ y ∷ ys

  -- `sorted(xs)`
  abbrev pub sorted : List A → List A
  sorted [] = []
  sorted (x ∷ xs) = insert_sorted x (sorted xs)

  abbrev pub insert_once : A → List A → List A
  insert_once x [] = x ∷ []
  insert_once x (y ∷ ys) =
      if lt y x then y ∷ insert_once x ys else if lt x y then x ∷ y ∷ ys else y ∷ ys

  -- `sorted(set(xs))`
  abbrev pub sorted_set : List A → List A
  sorted_set [] = []
  sorted_set (x ∷ xs) = insert_once x (sorted_set xs)

abbrev pub sorted_ints : List ℤ → List ℤ
sorted_ints xs = sorted_set lt_int xs

abbrev pub sorted_texts : List String → List String
sorted_texts xs = sorted_set lt_str xs

-- Each text once: `set(xs)` up to its order.
abbrev pub distinct : List String → List String
distinct [] = []
distinct (x ∷ xs) = let rest = distinct xs in if any (λ y. y == x) rest then rest else x ∷ rest

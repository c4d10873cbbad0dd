-- ===== src/Prelude/Members.antt =====
-- Membership in an appended list, and the position of a member.
use Prim.Native.Nat.{ℕ, suc, ◌<◌}
use mathlib.Core.Path.{◌≡◌, ap, sym}
use mathlib.Core.Option.{some}
use native.Mathlib.Omega.{arith}
use ddsleuth.Prelude.Lists.{get_elem?, length}
use mathlib.Core.Logic.{◌⊎◌, inl, inr}
use mathlib.Core.List.{List, [], ◌∷◌, ◌++◌, Memᴰ}

module _ {ℓ} {A : Type ℓ} where
  pub mem_append_left : {x : A} (xs ys : List A) → Memᴰ x xs → Memᴰ x (xs ++ ys)
  mem_append_left [] ys m = elim m [ ]
  mem_append_left (y ∷ xs) ys (Memᴰ.head e) = Memᴰ.head e
  mem_append_left (y ∷ xs) ys (Memᴰ.tail m) = Memᴰ.tail (mem_append_left xs ys m)

  pub mem_append_right : {x : A} (xs ys : List A) → Memᴰ x ys → Memᴰ x (xs ++ ys)
  mem_append_right [] ys m = m
  mem_append_right (y ∷ xs) ys m = Memᴰ.tail (mem_append_right xs ys m)

  pub mem_append_cases : {x : A} (xs ys : List A) → Memᴰ x (xs ++ ys) → Memᴰ x xs ⊎ Memᴰ x ys
  mem_append_cases [] ys m = inr m
  mem_append_cases (y ∷ xs) ys (Memᴰ.head e) = inl (Memᴰ.head e)
  mem_append_cases (y ∷ xs) ys (Memᴰ.tail m) = elim (mem_append_cases xs ys m) [
    | inl there ↦ inl (Memᴰ.tail there)
    | inr there ↦ inr there
  ]

  pub position_of :
      {x : A} (xs : List A) → Memᴰ x xs → (i : ℕ) × (get_elem? xs i ≡ some x) × (i < length xs)
  position_of [] m = elim m [ ]
  position_of (y ∷ ys) (Memᴰ.head e) = (0, ap some (sym e), omega arith)
  position_of (y ∷ ys) (Memᴰ.tail m) =
      let (i, there, below) = position_of ys m in (suc i, there, omega arith)

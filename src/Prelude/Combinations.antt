-- ===== src/Prelude/Combinations.antt =====
-- Nested comprehensions, and lists in which nothing stands twice.
use mathlib.Core.Path.{◌≡◌, refl, subst}
use mathlib.Core.Logic.{◌↔◌, inl, inr}
use mathlib.Core.Bool.{Bool, true, false, not}
use mathlib.Core.List.{List, [], ◌∷◌, ◌++◌, Memᴰ}
use ddsleuth.Prelude.Tests.{Bool-cases, not-true}
use ddsleuth.Prelude.Lists.{keep}
use ddsleuth.Prelude.Members.{mem_append_left, mem_append_right, mem_append_cases}
use ddsleuth.Prelude.Any.{mem_of_keep, keep_of_mem}

-- `[y for x in xs for y in f(x)]`
abbrev pub concat_map {ℓ κ} : {A : Type ℓ} {B : Type κ} → (A → List B) → List A → List B
concat_map f [] = []
concat_map f (x ∷ xs) = f x ++ concat_map f xs

module _ {ℓ κ} {A : Type ℓ} {B : Type κ} (f : A → List B) where
  pub mem_concat_map :
      {y : B} (x : A) (xs : List A) → Memᴰ x xs → Memᴰ y (f x) → Memᴰ y (concat_map f xs)
  mem_concat_map x [] m n = elim m [ ]
  mem_concat_map {y} x (z ∷ xs) (Memᴰ.head e) n =
      mem_append_left (f z) (concat_map f xs) (subst (λ w. Memᴰ y (f w)) e n)
  mem_concat_map x (z ∷ xs) (Memᴰ.tail m) n =
      mem_append_right (f z) (concat_map f xs) (mem_concat_map x xs m n)

  pub mem_of_concat_map :
      {y : B} (xs : List A) → Memᴰ y (concat_map f xs) → (x : A) × Memᴰ x xs × Memᴰ y (f x)
  mem_of_concat_map [] m = elim m [ ]
  mem_of_concat_map (z ∷ xs) m = elim (mem_append_cases (f z) (concat_map f xs) m) [
    | inl here ↦ (z, Memᴰ.head refl, here)
    | inr later ↦ let (x, there, at) = mem_of_concat_map xs later in (x, Memᴰ.tail there, at)
  ]

module _ {ℓ} {A : Type ℓ} where
  -- Nothing stands twice.
  abbrev pub Unrepeated : List A → Type ℓ
  Unrepeated [] = Unit
  Unrepeated (x ∷ xs) = (¬ Memᴰ x xs) × Unrepeated xs

module _ {ℓ} {A : Type ℓ} (same : A → A → Bool) where
  -- `list(dict.fromkeys(xs))`
  abbrev pub unique : List A → List A
  unique [] = []
  unique (x ∷ xs) = x ∷ keep (λ y. not (same y x)) (unique xs)

module _ {ℓ} {A : Type ℓ} (test : A → Bool) where
  Unrepeated-keep : (xs : List A) → Unrepeated xs → Unrepeated (keep test xs)
  Unrepeated-keep [] d = tt
  Unrepeated-keep (x ∷ xs) (new, d) = elim (Bool-cases (test x)) [
    | inl e ↦ rw e (λ m. new (mem_of_keep test xs m).0, Unrepeated-keep xs d)
    | inr e ↦ rw e (Unrepeated-keep xs d)
  ]

module _ {ℓ} {A : Type ℓ} (same : A → A → Bool)
    (decides : (x y : A) → (same x y ≡ true) ↔ (x ≡ y)) where
  pub unique-Unrepeated : (xs : List A) → Unrepeated (unique same xs)
  unique-Unrepeated [] = tt
  unique-Unrepeated (x ∷ xs) = (
    λ m.
        let (_, differs) = mem_of_keep (λ y. not (same y x)) (unique same xs) m in
        let equal : same x x ≡ true = (decides x x).1 refl in
        let unequal : same x x ≡ false = not-true (same x x) differs in cc,
    Unrepeated-keep (λ y. not (same y x)) (unique same xs) (unique-Unrepeated xs),
  )

  pub mem_unique : {y : A} (xs : List A) → Memᴰ y xs → Memᴰ y (unique same xs)
  mem_unique [] m = elim m [ ]
  mem_unique (x ∷ xs) (Memᴰ.head e) = Memᴰ.head e
  mem_unique {y} (x ∷ xs) (Memᴰ.tail m) = elim (Bool-cases (same y x)) [
    | inl e ↦ Memᴰ.head ((decides y x).0 e)
    | inr e ↦
        Memᴰ.tail (keep_of_mem (λ z. not (same z x)) (unique same xs) (mem_unique xs m) (rw e refl))
  ]

  pub mem_of_unique : {y : A} (xs : List A) → Memᴰ y (unique same xs) → Memᴰ y xs
  mem_of_unique [] m = elim m [ ]
  mem_of_unique (x ∷ xs) (Memᴰ.head e) = Memᴰ.head e
  mem_of_unique (x ∷ xs) (Memᴰ.tail m) =
      Memᴰ.tail (mem_of_unique xs (mem_of_keep (λ z. not (same z x)) (unique same xs) m).0)

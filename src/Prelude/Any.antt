-- ===== src/Prelude/Any.antt =====
-- `any` over a list, as a statement about its elements, and what keeps a list non-empty.
use Prim.Native.Nat.{zero, suc}
use mathlib.Core.Path.{◌≡◌, refl, ap}
use mathlib.Core.Logic.{◌↔◌, ◌⊎◌, inl, inr}
use mathlib.Core.Bool.{Bool, true, false, ◌||◌}
use mathlib.Core.List.{List, [], ◌∷◌, ◌++◌, map, Memᴰ}
use native.Mathlib.Omega.{arith}
use ddsleuth.Prelude.Tests.{Bool-cases}
use ddsleuth.Prelude.Lists.{any, keep, non_empty}
use ddsleuth.Prelude.Loops.{Occurs}
use ddsleuth.Prelude.Sets.{insert_once, sorted_set}

-- Every element of the list has the property.
abbrev pub All {ℓ κ} : {A : Type ℓ} → (A → Type κ) → List A → Type κ
All P [] = Unit
All P (x ∷ xs) = P x × All P xs

module _ {ℓ κ} {A : Type ℓ} {P : A → Type κ} where
  pub Occurs-head : (x : A) (xs : List A) → P x → Occurs P (x ∷ xs)
  Occurs-head x xs p = (0, x, refl, p)

  pub Occurs-tail : (x : A) (xs : List A) → Occurs P xs → Occurs P (x ∷ xs)
  Occurs-tail x xs (place, item, at, p) = (suc place, item, at, p)

  pub Occurs-cases : (x : A) (xs : List A) → Occurs P (x ∷ xs) → P x ⊎ Occurs P xs
  Occurs-cases x xs (zero, item, at, p) = let here : item ≡ x = cc in inl (rw here at p)
  Occurs-cases x xs (suc place, item, at, p) = inr (place, item, at, p)

module _ {ℓ κ} {A : Type ℓ} {P : A → Type κ} (test : A → Bool)
    (decides : (x : A) → (test x ≡ true) ↔ P x) where
  pub any_iff : (xs : List A) → (any test xs ≡ true) ↔ Occurs P xs
  any_iff [] = (λ h. cc, λ (place, item, at, p). cc)
  any_iff (x ∷ xs) = (
    λ h. elim (Bool-cases (test x)) [
      | inl e ↦ Occurs-head x xs ((decides x).0 e)
      | inr e ↦ Occurs-tail x xs ((any_iff xs).0 (rw e at h))
    ],
    λ o. elim (Occurs-cases x xs o) [
      | inl p ↦ rw ((decides x).1 p) refl
      | inr later ↦ elim (Bool-cases (test x)) [
        | inl e ↦ rw e refl
        | inr e ↦ rw e ((any_iff xs).1 later)
      ]
    ],
  )

  pub not_any_iff : (xs : List A) → (any test xs ≡ false) ↔ (¬ Occurs P xs)
  not_any_iff xs = (
    λ h o. let found = (any_iff xs).1 o in cc,
    λ n. elim (Bool-cases (any test xs)) [
      | inl found ↦ absurd (n ((any_iff xs).0 found))
      | inr nothing ↦ nothing
    ],
  )

module _ {ℓ κ} {A : Type ℓ} {P : A → Type κ} (test : A → Bool)
    (decides : (x : A) → (test x ≡ false) ↔ P x) where
  pub none_pass_iff : (xs : List A) → (any test xs ≡ false) ↔ All P xs
  none_pass_iff [] = (λ h. tt, λ h. refl)
  none_pass_iff (x ∷ xs) = (
    λ h. elim (Bool-cases (test x)) [
      | inl e ↦ absurd (let impossible : true ≡ false = rw e at h in cc)
      | inr e ↦ ((decides x).0 e, (none_pass_iff xs).0 (rw e at h))
    ],
    λ (p, ps). rw ((decides x).1 p) ((none_pass_iff xs).1 ps),
  )

module _ {ℓ} {A : Type ℓ} where
  pub non_empty-append : (xs ys : List A) → non_empty (xs ++ ys) ≡ (non_empty xs || non_empty ys)
  non_empty-append [] ys = refl
  non_empty-append (x ∷ xs) ys = refl

  pub non_empty-keep : (test : A → Bool) (xs : List A) → non_empty (keep test xs) ≡ any test xs
  non_empty-keep test [] = refl
  non_empty-keep test (x ∷ xs) = elim (Bool-cases (test x)) [
    | inl e ↦ rw e refl
    | inr e ↦ rw e (non_empty-keep test xs)
  ]

  pub non_empty-sorted_set :
      (lt : A → A → Bool) (xs : List A) → non_empty (sorted_set lt xs) ≡ non_empty xs
  non_empty-sorted_set lt [] = refl
  non_empty-sorted_set lt (x ∷ xs) = inserted (sorted_set lt xs)
    where
      inserted : (ys : List A) → non_empty (insert_once lt x ys) ≡ true
      inserted [] = refl
      inserted (y ∷ ys) = ground arith

pub non_empty-map {ℓ κ} :
    {A : Type ℓ} {B : Type κ} (f : A → B) (xs : List A) → non_empty (map f xs) ≡ non_empty xs
non_empty-map f [] = refl
non_empty-map f (x ∷ xs) = refl

module _ {ℓ} {A : Type ℓ} (test : A → Bool) where
  pub any_of_mem : {x : A} (xs : List A) → Memᴰ x xs → test x ≡ true → any test xs ≡ true
  any_of_mem [] m h = elim m [ ]
  any_of_mem (y ∷ ys) (Memᴰ.head e) h = let here : test y ≡ true = cc in rw here refl
  any_of_mem (y ∷ ys) (Memᴰ.tail m) h = elim (Bool-cases (test y)) [
    | inl e ↦ rw e refl
    | inr e ↦ rw e (any_of_mem ys m h)
  ]

  pub mem_of_any : (xs : List A) → any test xs ≡ true → (x : A) × Memᴰ x xs × (test x ≡ true)
  mem_of_any [] h = cc
  mem_of_any (x ∷ xs) h = elim (Bool-cases (test x)) [
    | inl e ↦ (x, Memᴰ.head refl, e)
    | inr e ↦ let (y, m, passes) = mem_of_any xs (rw e at h) in (y, Memᴰ.tail m, passes)
  ]

  pub mem_of_keep : {x : A} (xs : List A) → Memᴰ x (keep test xs) → Memᴰ x xs × (test x ≡ true)
  mem_of_keep [] m = elim m [ ]
  mem_of_keep {x} (y ∷ ys) m = elim (Bool-cases (test y)) [
    | inl e ↦ elim (rw e at m) [
      | Memᴰ.head same ↦ (Memᴰ.head same, cc)
      | Memᴰ.tail later ↦ let (there, passes) = mem_of_keep ys later in (Memᴰ.tail there, passes)
    ]
    | inr e ↦ let (there, passes) = mem_of_keep ys (rw e at m) in (Memᴰ.tail there, passes)
  ]

  pub keep_of_mem : {x : A} (xs : List A) → Memᴰ x xs → test x ≡ true → Memᴰ x (keep test xs)
  keep_of_mem [] m h = elim m [ ]
  keep_of_mem (y ∷ ys) (Memᴰ.head e) h = let here : test y ≡ true = cc in rw here (Memᴰ.head e)
  keep_of_mem (y ∷ ys) (Memᴰ.tail m) h = elim (Bool-cases (test y)) [
    | inl e ↦ rw e (Memᴰ.tail (keep_of_mem ys m h))
    | inr e ↦ rw e (keep_of_mem ys m h)
  ]

module _ {ℓ κ} {A : Type ℓ} {B : Type κ} (f : A → B) where
  pub map_mem : {x : A} (xs : List A) → Memᴰ x xs → Memᴰ (f x) (map f xs)
  map_mem [] m = elim m [ ]
  map_mem (y ∷ ys) (Memᴰ.head e) = Memᴰ.head (ap f e)
  map_mem (y ∷ ys) (Memᴰ.tail m) = Memᴰ.tail (map_mem ys m)

  pub mem_of_map : {y : B} (xs : List A) → Memᴰ y (map f xs) → (x : A) × Memᴰ x xs × (y ≡ f x)
  mem_of_map [] m = elim m [ ]
  mem_of_map (x ∷ xs) (Memᴰ.head e) = (x, Memᴰ.head refl, e)
  mem_of_map (x ∷ xs) (Memᴰ.tail m) =
      let (z, there, same) = mem_of_map xs m in (z, Memᴰ.tail there, same)

module _ {ℓ} {A : Type ℓ} (test : A → Bool) where
  pub fails_of_none :
      {x : A} (xs : List A) → non_empty (keep test xs) ≡ false → Memᴰ x xs → test x ≡ false
  fails_of_none {x} xs h m = elim (Bool-cases (test x)) [
    | inl e ↦ absurd (
        let found : any test xs ≡ true = any_of_mem test xs m e in
        let none_found : any test xs ≡ false = rw non_empty-keep at h in cc)
    | inr e ↦ e
  ]

  pub none_of_fails :
      (xs : List A) → ((x : A) → Memᴰ x xs → test x ≡ false) → non_empty (keep test xs) ≡ false
  none_of_fails xs fails = elim (Bool-cases (any test xs)) [
    | inl found ↦ absurd (let (x, m, e) = mem_of_any test xs found in let no = fails x m in cc)
    | inr nothing ↦ rw non_empty-keep nothing
  ]

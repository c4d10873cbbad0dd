-- ===== src/Prelude/Loops.antt =====
-- `for index, item in enumerate(items)`, where the body appends a value or continues.
use Prim.Native.Nat.{ℕ, zero, suc, ◌+◌}
use mathlib.Core.Path.{◌≡◌, refl, sym, ◌∙◌}
use mathlib.Core.Logic.{◌↔◌, inl, inr}
use mathlib.Core.Bool.{true, false, false≢true}
use mathlib.Core.List.{List, [], ◌∷◌, Memᴰ}
use mathlib.Core.Option.{Option, none, some}
use native.Mathlib.Omega.{arith}
use ddsleuth.Prelude.Lists.{get_elem?, non_empty}
use ddsleuth.Prelude.Tests.{Bool-cases}

abbrev pub append_found {κ} : {B : Type κ} → Option B → List B → List B
append_found none found = found
append_found (some b) found = b ∷ found

module _ {ℓ κ} {A : Type ℓ} {B : Type κ} where
  -- The body is called with the position, counted from the first argument, and the element.
  abbrev pub collect : (ℕ → A → Option B) → ℕ → List A → List B
  collect body i [] = []
  collect body i (x ∷ xs) = append_found (body i x) (collect body (suc i) xs)

  -- The body found `b` at an element of the list.
  pub record FoundAt (body : ℕ → A → Option B) (start : ℕ) (xs : List A) (b : B)
      : Type (ℓ ⊔ κ) where
    pub place : ℕ
    pub item : A
    pub at : get_elem? xs place ≡ some item
    pub found : body (start + place) item ≡ some b

module _ {ℓ κ} {A : Type ℓ} {B : Type κ} (body : ℕ → A → Option B) where
  FoundAt-cons :
      {b : B} (i : ℕ) (x : A) (xs : List A) → FoundAt body (suc i) xs b → FoundAt body i (x ∷ xs) b
  FoundAt-cons {b} i x xs f = record {
    place = suc f.place;
    item = f.item;
    at = f.at;
    found = let shift : i + suc f.place ≡ suc i + f.place = omega arith in rw shift f.found;
  }

  found_here : {b : B} (i : ℕ) (x : A) (xs : List A) → body i x ≡ some b → FoundAt body i (x ∷ xs) b
  found_here i x xs e = record {
    place = 0;
    item = x;
    at = refl;
    found = let shift : i + 0 ≡ i = omega arith in rw shift e;
  }

  found_or_later :
      {b : B} (i : ℕ) (x : A) (xs : List A) (o : Option B)
      → body i x ≡ o
      → (Memᴰ b (collect body (suc i) xs) → FoundAt body (suc i) xs b)
      → Memᴰ b (append_found o (collect body (suc i) xs))
      → FoundAt body i (x ∷ xs) b
  found_or_later i x xs none e later m = FoundAt-cons i x xs (later m)
  found_or_later i x xs (some c) e later (Memᴰ.head p) = found_here i x xs (cc)
  found_or_later i x xs (some c) e later (Memᴰ.tail m) = FoundAt-cons i x xs (later m)

  -- Whatever the loop gathered, its body found at some element.
  pub collect_sound :
      {b : B} (i : ℕ) (xs : List A) → Memᴰ b (collect body i xs) → FoundAt body i xs b
  collect_sound i [] m = elim m [ ]
  collect_sound i (x ∷ xs) m = found_or_later i x xs (body i x) refl (collect_sound (suc i) xs) m

  Memᴰ-append_found :
      {b : B} (o : Option B) (found : List B) → Memᴰ b found → Memᴰ b (append_found o found)
  Memᴰ-append_found none found m = m
  Memᴰ-append_found (some c) found m = Memᴰ.tail m

  -- Whatever the body finds at an element, the loop gathers.
  pub collect_complete :
      (i : ℕ) (xs : List A) (place : ℕ) {item : A} {b : B}
      → get_elem? xs place ≡ some item
      → body (i + place) item ≡ some b
      → Memᴰ b (collect body i xs)
  collect_complete i [] place at found = cc
  collect_complete i (x ∷ xs) zero {b = b} at found =
      let shift : i + 0 ≡ i = omega arith in
      let here : body i x ≡ some b = cc in rw here (Memᴰ.head refl)
  collect_complete i (x ∷ xs) (suc place) {item} at found = Memᴰ-append_found (body i x) _ (
      collect_complete (suc i) xs place at
        (let shift : suc i + place ≡ i + suc place = omega arith in rw shift found))

module _ {ℓ} {A : Type ℓ} where
  pub first_of_non_empty : (xs : List A) → non_empty xs ≡ true → (x : A) × Memᴰ x xs
  first_of_non_empty [] h = cc
  first_of_non_empty (x ∷ xs) h = (x, Memᴰ.head refl)

  pub non_empty_of_mem : {x : A} {xs : List A} → Memᴰ x xs → non_empty xs ≡ true
  non_empty_of_mem (Memᴰ.head e) = refl
  non_empty_of_mem (Memᴰ.tail m) = refl

-- Some element of the list has the property.
abbrev pub Occurs {ℓ κ} : {A : Type ℓ} → (A → Type κ) → List A → Type (ℓ ⊔ κ)
Occurs {A} P xs = (place : ℕ) × (item : A) × (get_elem? xs place ≡ some item) × P item

-- The body finds something exactly at the elements with the property.
pub record Finds {ℓ κ μ} {A : Type ℓ} {B : Type κ} (body : ℕ → A → Option B) (P : A → Type μ)
    : Type (ℓ ⊔ κ ⊔ μ) where
  pub sound : (index : ℕ) (x : A) (b : B) → body index x ≡ some b → P x
  pub complete : (index : ℕ) (x : A) → P x → (b : B) × (body index x ≡ some b)

module _ {ℓ κ μ} {A : Type ℓ} {B : Type κ} {body : ℕ → A → Option B} {P : A → Type μ}
    (finds : Finds body P) where
  pub non_empty-collect_iff : (xs : List A) → (non_empty (collect body 0 xs) ≡ true) ↔ Occurs P xs
  non_empty-collect_iff xs = (
    λ h.
        let (b, m) = first_of_non_empty (collect body 0 xs) h in
        let f = collect_sound body 0 xs m in (f.place, f.item, f.at, finds.sound _ _ b f.found),
    λ (place, item, at, p).
        let (b, found) = finds.complete (0 + place) item p in
        non_empty_of_mem (collect_complete body 0 xs place at found),
  )

  pub empty-collect_iff : (xs : List A) → (non_empty (collect body 0 xs) ≡ false) ↔ (¬ Occurs P xs)
  empty-collect_iff xs = (
    λ h o. false≢true (sym h ∙ (non_empty-collect_iff xs).1 o),
    λ none_occurs. elim (Bool-cases (non_empty (collect body 0 xs))) [
      | inl some_found ↦ absurd (none_occurs ((non_empty-collect_iff xs).0 some_found))
      | inr nothing ↦ nothing
    ],
  )

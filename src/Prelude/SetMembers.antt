-- ===== src/Prelude/SetMembers.antt =====
-- A sorted set of texts has the members of its list.
use Prim.Native.String.{String}
use mathlib.Core.Path.{◌≡◌, ◌∙◌}
use mathlib.Core.Logic.{◌↔◌, inl, inr}
use mathlib.Core.List.{List, [], ◌∷◌, Memᴰ}
use ddsleuth.Prelude.Sets.{insert_once, lt_str, sorted_texts}
use ddsleuth.Prelude.Tests.{Bool-cases}
use ddsleuth.Prelude.TextOrder.{lt_str-total}

mem_cons_iff :
    {x y : String} {xs ys : List String}
    → (Memᴰ x xs ↔ Memᴰ x ys)
    → Memᴰ x (y ∷ xs) ↔ Memᴰ x (y ∷ ys)
mem_cons_iff same = (λ m. on same.0 m, λ m. on same.1 m)
  where
    on :
        {x y : String} {xs ys : List String}
        → (Memᴰ x xs → Memᴰ x ys)
        → Memᴰ x (y ∷ xs)
        → Memᴰ x (y ∷ ys)
    on f (Memᴰ.head e) = Memᴰ.head e
    on f (Memᴰ.tail m) = Memᴰ.tail (f m)

mem_swap :
    {x : String} (y z : String) (xs : List String) → Memᴰ x (y ∷ z ∷ xs) → Memᴰ x (z ∷ y ∷ xs)
mem_swap y z xs (Memᴰ.head e) = Memᴰ.tail (Memᴰ.head e)
mem_swap y z xs (Memᴰ.tail (Memᴰ.head e)) = Memᴰ.head e
mem_swap y z xs (Memᴰ.tail (Memᴰ.tail m)) = Memᴰ.tail (Memᴰ.tail m)

mem_once : {x y z : String} {xs : List String} → y ≡ z → Memᴰ x (y ∷ z ∷ xs) → Memᴰ x (z ∷ xs)
mem_once same (Memᴰ.head e) = Memᴰ.head (e ∙ same)
mem_once same (Memᴰ.tail m) = m

mem_insert_once_iff :
    {x : String} (y : String) (xs : List String)
    → Memᴰ x (y ∷ xs) ↔ Memᴰ x (insert_once lt_str y xs)
mem_insert_once_iff y [] = (λ m. m, λ m. m)
mem_insert_once_iff {x} y (z ∷ xs) = elim (Bool-cases (lt_str z y)) [
  | inl e ↦ rw e (
      let later = mem_cons_iff {y = z} (mem_insert_once_iff {x = x} y xs) in
      (λ m. later.0 (mem_swap y z xs m), λ m. mem_swap z y xs (later.1 m)))
  | inr e ↦ elim (Bool-cases (lt_str y z)) [
    | inl f ↦ rw (e, f) (λ m. m, λ m. m)
    | inr f ↦ rw (e, f) (λ m. mem_once (lt_str-total y z f e) m, λ m. Memᴰ.tail m)
  ]
]

-- The members of `sorted(set(xs))` are those of `xs`.
pub mem_sorted_texts : {x : String} (xs : List String) → Memᴰ x xs ↔ Memᴰ x (sorted_texts xs)
mem_sorted_texts [] = (λ m. m, λ m. m)
mem_sorted_texts {x} (y ∷ xs) =
    let later = mem_cons_iff {y = y} (mem_sorted_texts {x = x} xs) in
    let inserted = mem_insert_once_iff {x = x} y (sorted_texts xs) in
    (λ m. inserted.0 (later.0 m), λ m. later.1 (inserted.1 m))

-- ===== src/Prelude/Distinct.antt =====
-- What `len(set(texts)) > 1` says of the texts.
use Prim.Native.Nat.{◌<◌, suc}
use Prim.Native.String.{String}
use mathlib.Core.Path.{◌≡◌, refl, sym, ◌∙◌}
use mathlib.Core.Logic.{◌↔◌, ◌≢◌, inl, inr}
use mathlib.Core.Bool.{true, false, false≢true}
use mathlib.Core.List.{List, [], ◌∷◌, Memᴰ}
use native.Mathlib.Omega.{arith}
use text.Mathlib.Text.{◌==◌}
use text.Mathlib.TextEquality.{eq_iff}
use ddsleuth.Prelude.Tests.{Bool-cases, ltb, lt→ltb, ltb→lt}
use ddsleuth.Prelude.Lists.{any, length}
use ddsleuth.Prelude.Sets.{distinct}
use ddsleuth.Prelude.Any.{any_of_mem, mem_of_any}

-- Two of the texts are different.
abbrev pub Differ : List String → Type 0
Differ xs = (a : String) × (b : String) × Memᴰ a xs × Memᴰ b xs × (a ≢ b)

mem_of_distinct : {x : String} (xs : List String) → Memᴰ x (distinct xs) → Memᴰ x xs
mem_of_distinct [] m = elim m [ ]
mem_of_distinct (y ∷ ys) m = elim (Bool-cases (any (λ z. z == y) (distinct ys))) [
  | inl e ↦ Memᴰ.tail (mem_of_distinct ys (rw e at m))
  | inr e ↦ elim (rw e at m) [
    | Memᴰ.head same ↦ Memᴰ.head same
    | Memᴰ.tail later ↦ Memᴰ.tail (mem_of_distinct ys later)
  ]
]

pub distinct_mem : {x : String} (xs : List String) → Memᴰ x xs → Memᴰ x (distinct xs)
distinct_mem [] m = elim m [ ]
distinct_mem {x} (y ∷ ys) (Memᴰ.head e) = elim (Bool-cases (any (λ z. z == y) (distinct ys))) [
  | inl found ↦
      let (z, m, same) = mem_of_any (λ z. z == y) (distinct ys) found in
      let eq : z ≡ x = (eq_iff z y).0 same ∙ sym e in rw found (rw eq at m)
  | inr new ↦ rw new (Memᴰ.head e)
]
distinct_mem (y ∷ ys) (Memᴰ.tail m) = elim (Bool-cases (any (λ z. z == y) (distinct ys))) [
  | inl found ↦ rw found (distinct_mem ys m)
  | inr new ↦ rw new (Memᴰ.tail (distinct_mem ys m))
]

later_differs :
    (x : String) (ys rest : List String)
    → any (λ z. z == x) rest ≡ false
    → 0 < length rest
    → ((y : String) → Memᴰ y rest → Memᴰ y ys)
    → Differ (x ∷ ys)
later_differs x ys [] new long inside = absurd (omega arith)
later_differs x ys (y ∷ rest) new long inside = (
  x,
  y,
  Memᴰ.head refl,
  Memᴰ.tail (inside y (Memᴰ.head refl)),
  λ same.
      false≢true (
        sym new ∙ any_of_mem (λ z. z == x) (y ∷ rest) (Memᴰ.head refl) ((eq_iff y x).1 (sym same))),
)

Differ-long : (xs : List String) → 1 < length (distinct xs) → Differ xs
Differ-long [] h = absurd (omega arith)
Differ-long (x ∷ xs) h = elim (Bool-cases (any (λ z. z == x) (distinct xs))) [
  | inl found ↦
      let (a, b, m, n, differ) = Differ-long xs (rw found at h) in
      (a, b, Memᴰ.tail m, Memᴰ.tail n, differ)
  | inr new ↦
      let long : 1 < suc (length (distinct xs)) = rw new at h in
      later_differs x xs (distinct xs) new (omega arith) (λ y m. mem_of_distinct xs m)
]

long_of_two : {a b : String} (xs : List String) → Memᴰ a xs → Memᴰ b xs → a ≢ b → 1 < length xs
long_of_two [] m n differ = elim m [ ]
long_of_two (x ∷ []) (Memᴰ.head e) (Memᴰ.head f) differ = absurd (differ (e ∙ sym f))
long_of_two (x ∷ []) (Memᴰ.tail m) n differ = elim m [ ]
long_of_two (x ∷ []) (Memᴰ.head e) (Memᴰ.tail n) differ = elim n [ ]
long_of_two (x ∷ y ∷ xs) m n differ = omega arith

-- More than one text is left exactly if two of them are different.
pub distinct_iff : (xs : List String) → (ltb 1 (length (distinct xs)) ≡ true) ↔ Differ xs
distinct_iff xs = (
  λ h. Differ-long xs (ltb→lt 1 _ h),
  λ (a, b, m, n, differ).
      lt→ltb 1 _ (long_of_two (distinct xs) (distinct_mem xs m) (distinct_mem xs n) differ),
)

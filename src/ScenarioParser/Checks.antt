-- ===== src/ScenarioParser/Checks.antt =====
-- What the single checks of src/ddsleuth/scenario.py guarantee of a value that they let pass.
use ddsleuth.Json.{scale, float, Dict, Float, JsonValue, finite, get, int, str}
use ddsleuth.Json.Numbers.{
  scale-not_negative, float_of_int, lt_float, overflows, rounded, zero_float,
}
use ddsleuth.Model.EventKind.{value}
use ddsleuth.Prelude.{
  subst, Bool-cases, List, Memᴰ, String, [], any, any_of_mem, arith, distinct, distinct_mem, eq_iff,
  eq_nat, eq_refl, err, false, false≢true, inl, inr, length, mem_of_any, not, not-true, ok, pos,
  refl, suc, sym, true, ◌==◌, ◌∙◌, ◌∷◌, ◌≡◌, ◌≤◌,
}
use ddsleuth.ScenarioParser.Participants.{contains, included, listed_once}
use ddsleuth.ScenarioParser.Values.{
  Context, ScenarioError, int_too_large, is_blank, is_non_negative, must_be_non_empty_string,
  non_empty_string, require_string, to_float,
}
use ddsleuth.ScenarioParser.WellFormed.{AllDistinct}

pub require_string-not_blank :
    (raw : Dict JsonValue) (key : String) (context : Context) (value : String)
    → require_string raw key context ≡ ok value
    → is_blank value ≡ false
unfolding require_string
require_string-not_blank raw key context value h =
    checked (must_be_non_empty_string context key) (get raw key) h
  where
    checked :
        (error : ScenarioError) (v : JsonValue)
        → non_empty_string error v ≡ ok value
        → is_blank value ≡ false
    checked error (str s) h = elim (Bool-cases (is_blank s)) [
      | inl e ↦ let failed : err error ≡ ok value = rw e at h in cc
      | inr e ↦
          let same : ok s ≡ ok value = rw e at h in let s-value : s ≡ value = cc in rw (← s-value) e
    ]
    checked error _ h = cc

pub mem_of_contains :
    (texts : List String) (text : String) → contains texts text ≡ true → Memᴰ text texts
mem_of_contains texts text h =
    let (other, m, same) = mem_of_any (λ other. other == text) texts h in
    let e : other ≡ text = (eq_iff other text).0 same in rw (← e) m

pub contains_of_mem :
    (texts : List String) (text : String) → Memᴰ text texts → contains texts text ≡ true
contains_of_mem texts text m = any_of_mem (λ other. other == text) texts m (eq_refl text)

pub not_mem_of_contains :
    (texts : List String) (text : String) → contains texts text ≡ false → ¬ Memᴰ text texts
not_mem_of_contains texts text h m = false≢true (sym h ∙ contains_of_mem texts text m)

pub float_of_non_negative :
    (v : JsonValue) (x : Float)
    → is_non_negative v ≡ true
    → to_float v ≡ ok x
    → lt_float x zero_float ≡ false
unfolding float_of_int
float_of_non_negative (int (pos n)) x h e = elim (Bool-cases (overflows n)) [
  | inl o ↦ let failed : err int_too_large ≡ ok x = rw o at e in cc
  | inr o ↦
      let made : ok (finite (scale (pos (rounded n)))) ≡ ok x = rw o at e in
      let made' : finite (scale (pos (rounded n))) ≡ x = cc in
      subst (λ y. lt_float y zero_float ≡ false) made' (scale-not_negative (rounded n))
]
float_of_non_negative (float y) x h e = let same : y ≡ x = cc in rw (← same) (not-true _ h)
float_of_non_negative _ x h e = cc

pub included_mem :
    {x : String} (texts others : List String)
    → included texts others ≡ true
    → Memᴰ x texts
    → Memᴰ x others
included_mem {x} texts others h m = elim (Bool-cases (contains others x)) [
  | inl e ↦ mem_of_contains others x e
  | inr e ↦ absurd (
      let missing : any (λ text. not (contains others text)) texts ≡ true =
        any_of_mem (λ text. not (contains others text)) texts m (rw e refl) in
      let failed : included texts others ≡ false = rw missing refl in false≢true (sym failed ∙ h))
]

length-distinct : (texts : List String) → length (distinct texts) ≤ length texts
length-distinct [] = omega arith
length-distinct (x ∷ xs) = ground (arith, length-distinct xs)

pub AllDistinct-listed_once : (texts : List String) → listed_once texts ≡ true → AllDistinct texts
AllDistinct-listed_once [] h = tt
AllDistinct-listed_once (x ∷ xs) h = elim (Bool-cases (any (λ z. z == x) (distinct xs))) [
  | inl found ↦ absurd (
      let long : listed_once (x ∷ xs) ≡ true = h in
      let bound = length-distinct xs in
      let short : eq_nat (suc (length xs)) (length (distinct xs)) ≡ true = rw found at h in
      ground arith)
  | inr new ↦
      let same : eq_nat (suc (length xs)) (suc (length (distinct xs))) ≡ true = rw new at h in
      (
        λ m. not_mem_of_contains (distinct xs) x new (distinct_mem xs m),
        AllDistinct-listed_once xs (ground arith),
      )
]

-- What a loop leaves apart from what it has seen.
abbrev pub Apart : List String → List String → Type 0
Apart seen texts = (x : String) → Memᴰ x texts → ¬ Memᴰ x seen

pub AllDistinct-cons :
    (seen : List String) (x : String) (rest : List String)
    → (¬ Memᴰ x seen)
    → AllDistinct rest × Apart (x ∷ seen) rest
    → AllDistinct (x ∷ rest) × Apart seen (x ∷ rest)
AllDistinct-cons seen x rest new (distinct_rest, apart) =
    ((λ m. apart x m (Memᴰ.head refl), distinct_rest), first)
  where
    first : (y : String) → Memᴰ y (x ∷ rest) → ¬ Memᴰ y seen
    first y (Memᴰ.head e) there = new (rw e at there)
    first y (Memᴰ.tail m) there = apart y m (Memᴰ.tail there)

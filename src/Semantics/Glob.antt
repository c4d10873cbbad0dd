-- ===== src/Semantics/Glob.antt =====
-- `fnmatchcase` of Python's standard library, which src/ddsleuth/semantics.py matches resource
-- names with: a pattern is cut into pieces, `*`, `?`, `[...]` or a plain character.
pub mod Matching
use Prim.Native.Char.{code}
use ddsleuth.Prelude.{
  ℕ, zero, suc, ◌+◌, String, Bool, true, false, not, ◌&&◌, Option, none, some, List, [], ◌∷◌, any,
  eq_nat, leb, if◌then◌else◌, ◌≡◌, refl,
}

abbrev pub codes : String → List ℕ
codes String.[] = []
codes (String.◌∷◌ c s) = code c ∷ codes s

-- What one character is tested against. A class holds its ranges, a single character being a
-- range of one.
pub data CharTest : Type 0 where
  any_char : CharTest
  literal : ℕ → CharTest
  class : Bool → List (ℕ × ℕ) → CharTest

pub data Piece : Type 0 where
  star : Piece
  one : CharTest → Piece

abbrev take : ℕ → List ℕ → List ℕ
take zero cs = []
take (suc n) [] = []
take (suc n) (c ∷ cs) = c ∷ take n cs

abbrev find_close : ℕ → List ℕ → Option ℕ
find_close k [] = none
find_close k (c ∷ cs) = if eq_nat c b']' then some k else find_close (k + 1) cs

-- A `]` that stands first does not close the class.
abbrev close_after_first : ℕ → List ℕ → Option ℕ
close_after_first k [] = none
close_after_first k (c ∷ cs) = find_close (k + 1) cs

-- Where the `]` of a class stands, counted from behind its `[`.
abbrev class_end : List ℕ → Option ℕ
class_end [] = none
class_end (c ∷ cs) = if eq_nat c b'!' then close_after_first 1 cs else close_after_first 0 (c ∷ cs)

ranges : List ℕ → List (ℕ × ℕ)
ranges [] = []
ranges (a ∷ []) = (a, a) ∷ []
ranges (a ∷ b ∷ []) = (a, a) ∷ (b, b) ∷ []
ranges (a ∷ dash ∷ b ∷ cs) = elim (eq_nat dash b'-') [
  | true ↦ (a, b) ∷ ranges cs
  | false ↦ (a, a) ∷ ranges (dash ∷ b ∷ cs)
]

class_of : List ℕ → CharTest
unfolding ranges
class_of [] = class false []
class_of (c ∷ cs) = if eq_nat c b'!' then class true (ranges cs) else class false (ranges (c ∷ cs))

-- The piece that begins with the character, and how many further characters it takes.
piece_at : ℕ → List ℕ → Piece × ℕ
unfolding class_of
piece_at c cs =
    if eq_nat c b'*'
    then (star, 0)
    else if eq_nat c b'?'
    then (one any_char, 0)
    else if eq_nat c b'['
    then elim (class_end cs) [
      | none ↦ (one (literal c), 0)
      | some k ↦ (one (class_of (take k cs)), k + 1)
    ]
    else (one (literal c), 0)

pieces_from : ℕ → List ℕ → List Piece
unfolding piece_at
pieces_from skip [] = []
pieces_from (suc skip) (c ∷ cs) = pieces_from skip cs
pieces_from zero (c ∷ cs) = let (piece, skip) = piece_at c cs in piece ∷ pieces_from skip cs

unfoldable pub pieces : String → List Piece
unfolding pieces_from
pieces pattern_text = pieces_from 0 (codes pattern_text)

abbrev in_range : ℕ → ℕ × ℕ → Bool
in_range c (low, high) = leb low c && leb c high

unfoldable pub accepts : CharTest → ℕ → Bool
accepts any_char c = true
accepts (literal d) c = eq_nat d c
accepts (class negated rs) c = if negated then not (any (in_range c) rs) else any (in_range c) rs

abbrev pub any_suffix : (List ℕ → Bool) → List ℕ → Bool
any_suffix test [] = test []
any_suffix test (c ∷ cs) = if test (c ∷ cs) then true else any_suffix test cs

unfoldable pub matches : List Piece → List ℕ → Bool
unfolding accepts
matches [] [] = true
matches [] (c ∷ cs) = false
matches (star ∷ ps) cs = any_suffix (matches ps) cs
matches (one test ∷ ps) [] = false
matches (one test ∷ ps) (c ∷ cs) = if accepts test c then matches ps cs else false

unfoldable pub fnmatchcase : String → String → Bool
unfolding pieces matches
fnmatchcase name expression = matches (pieces expression) (codes name)

glob_examples :
    (fnmatchcase "sensor/temp" "sensor/*" ≡ true)
    × (fnmatchcase "Topic7" "Topic[0-9]" ≡ true)
    × (fnmatchcase "TopicA" "Topic[!A-C]" ≡ false)
    × (fnmatchcase "a]b" "a[]]?" ≡ true)
    × (fnmatchcase "a[b" "a[b" ≡ true)
unfolding fnmatchcase
glob_examples = (refl, refl, refl, refl, refl)

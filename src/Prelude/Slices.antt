-- ===== src/Prelude/Slices.antt =====
-- Python's slices of a list, and how a number is written.
use Prim.Native.Nat.{ℕ, zero, suc, ◌/◌, ◌%◌}
use Prim.Native.String.{String, ◌++◌ as concat}
use mathlib.Core.List.{List, [], ◌∷◌}
use ddsleuth.Prelude.Tests.{if◌then◌else◌, ltb, eq_nat}

module _ {ℓ} {A : Type ℓ} where
  abbrev pub take : ℕ → List A → List A
  take zero xs = []
  take (suc n) [] = []
  take (suc n) (x ∷ xs) = x ∷ take n xs

  abbrev pub drop : ℕ → List A → List A
  drop zero xs = xs
  drop (suc n) [] = []
  drop (suc n) (x ∷ xs) = drop n xs

abbrev digit : ℕ → String
digit d =
    if eq_nat d 0
    then "0"
    else if eq_nat d 1
    then "1"
    else if eq_nat d 2
    then "2"
    else if eq_nat d 3
    then "3"
    else if eq_nat d 4
    then "4"
    else if eq_nat d 5
    then "5"
    else if eq_nat d 6
    then "6"
    else if eq_nat d 7
    then "7"
    else if eq_nat d 8
    then "8"
    else "9"

decimal_from : ℕ → ℕ → String
decimal_from zero n = ""
decimal_from (suc fuel) n =
    let more = decimal_from fuel (n / 10) in
    if ltb n 10 then digit n else concat more (digit (n % 10))

-- `str(n)`, of as many digits as `n + 1` at most
unfoldable pub decimal : ℕ → String
unfolding decimal_from
decimal n = decimal_from (suc n) n

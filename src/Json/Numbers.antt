-- ===== src/Json/Numbers.antt =====
-- Python's numbers where the program converts and orders them: `float(n)` and `<`.
use Prim.Native.Nat.{◌/◌}
use ddsleuth.Prelude.{
  add_int, arith, ◌≡◌, arith, ◌≡◌, ◌||◌, ℕ, zero, suc, ◌+◌, ◌-◌, ◌*◌, ◌%◌, ◌^◌, Bool, true, false,
  not, ◌&&◌, Option, none, some, ℤ, pos, negsuc, ltb, leb, eq_nat, lt_int, if◌then◌else◌,
}
use ddsleuth.Json.{scale, Float, finite, infinity, nan}

-- How often a magnitude is halved until it has 53 bits at most: 971 times, since it is not
-- above the largest double.
excess_bits : ℕ → ℕ → ℕ
excess_bits zero n = 0
excess_bits (suc fuel) n =
    let more = excess_bits fuel (n / 2) in if ltb n (2 ^ 53) then 0 else suc more

-- The quotient to the nearest whole number, and to the even one at a tie.
nearest : ℕ → ℕ → ℕ → ℕ
nearest quotient remainder unit =
    if ltb (2 * remainder) unit || eq_nat (2 * remainder) unit && eq_nat (quotient % 2) 0
    then quotient
    else quotient + 1

-- To 53 bits, with halvings enough for the number.
rounded_by : ℕ → ℕ → ℕ
unfolding excess_bits nearest
rounded_by halvings n =
    let unit = 2 ^ excess_bits halvings n in nearest (n / unit) (n % unit) unit * unit

pub rounded : ℕ → ℕ
unfolding rounded_by
rounded n = rounded_by 971 n

-- Half of the last place above the largest double rounds to what is no double.
pub overflows : ℕ → Bool
overflows n = leb (2 ^ 1024 - 2 ^ 970) n

-- `float(n)`: the nearest double, or `none` for an OverflowError.
unfoldable pub float_of_int : ℤ → Option Float
unfolding rounded overflows
float_of_int (pos n) = if overflows n then none else some (finite (scale (pos (rounded n))))
float_of_int (negsuc n) =
    if overflows (suc n) then none else some (finite (scale (negsuc (rounded (suc n) - 1))))

pub scale-not_negative : (n : ℕ) → lt_int (scale (pos n)) (pos 0) ≡ false
unfolding scale
scale-not_negative n = ground arith

-- `x < y`, which is false where one of them is no number.
abbrev pub lt_float : Float → Float → Bool
lt_float (finite x) (finite y) = lt_int x y
lt_float (finite x) (infinity positive) = positive
lt_float (infinity positive) (finite y) = not positive
lt_float (infinity positive) (infinity positive') = not positive && positive'
lt_float _ _ = false

abbrev pub zero_float : Float
zero_float = finite (pos 0)

-- `x <= 0`
abbrev pub not_positive : Float → Bool
not_positive (finite (pos zero)) = true
not_positive (finite (pos (suc n))) = false
not_positive (finite (negsuc n)) = true
not_positive (infinity positive) = not positive
not_positive nan = false

-- The double nearest to a whole multiple of 2^-1074 that two doubles add up to.
of_units : ℤ → Float
unfolding rounded_by
of_units (pos n) =
    let r = rounded_by 2046 n in if leb (2 ^ 2098) r then infinity true else finite (pos r)
of_units (negsuc n) =
    let r = rounded_by 2046 (suc n) in
    if leb (2 ^ 2098) r then infinity false else finite (negsuc (r - 1))

-- `x + y`
unfoldable pub add_float : Float → Float → Float
unfolding of_units
add_float (finite x) (finite y) = of_units (add_int x y)
add_float (finite x) (infinity positive) = infinity positive
add_float (infinity positive) (finite y) = infinity positive
add_float (infinity true) (infinity true) = infinity true
add_float (infinity false) (infinity false) = infinity false
add_float _ _ = nan

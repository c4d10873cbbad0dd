-- ===== src/Trajectory/Schedule/Later.antt =====
-- The later of two times, and plans in the order of their times, for src/ddsleuth/trajectory.py.
use ddsleuth.Json.{Float, JsonValue, arr, bool, finite, float, infinity, int, nan, null, obj, str}
use ddsleuth.Json.Numbers.{lt_float}
use ddsleuth.Prelude.{
  Bool-cases, List, [], arith, false, inl, inr, negsuc, pos, refl, true, ◌∷◌, ◌≡◌,
}
use ddsleuth.Trajectory.Causal.{is_number}
use ddsleuth.Trajectory.Causal.Times.{at_ms_value}
use ddsleuth.Trajectory.Schedule.{max_float}

-- The time that a value is, is not before the given one; any other value says nothing.
abbrev pub NotBefore : Float → JsonValue → Type 0
NotBefore previous (float time) = lt_float time previous ≡ false
NotBefore previous _ = Unit

abbrev pub last_time : Float → JsonValue → Float
last_time previous (float time) = time
last_time previous _ = previous

-- No action is timed before the last one ahead of it that has a time, nor before the given time.
abbrev pub TimesFrom : Float → List JsonValue → Type 0
TimesFrom previous [] = Unit
TimesFrom previous (action ∷ actions) =
    NotBefore previous (at_ms_value action)
    × TimesFrom (last_time previous (at_ms_value action)) actions

lt_float_irrefl : (x : Float) → lt_float x x ≡ false
lt_float_irrefl (finite (pos n)) = ground arith
lt_float_irrefl (finite (negsuc n)) = ground arith
lt_float_irrefl (infinity true) = refl
lt_float_irrefl (infinity false) = refl
lt_float_irrefl nan = refl

lt_float_asymm : (x y : Float) → lt_float x y ≡ true → lt_float y x ≡ false
lt_float_asymm (finite x) (finite y) h = ground arith
lt_float_asymm (finite x) (infinity true) h = refl
lt_float_asymm (finite x) (infinity false) h = cc
lt_float_asymm (finite x) nan h = cc
lt_float_asymm (infinity true) y h = cc (never y h)
  where
    never : (y : Float) → lt_float (infinity true) y ≡ true → false ≡ true
    never (finite y) h = h
    never (infinity true) h = h
    never (infinity false) h = h
    never nan h = h
lt_float_asymm (infinity false) (finite y) h = refl
lt_float_asymm (infinity false) (infinity true) h = refl
lt_float_asymm (infinity false) (infinity false) h = cc
lt_float_asymm (infinity false) nan h = cc
lt_float_asymm nan y h = cc

pub max_float-not_before : (x y : Float) → lt_float (max_float x y) x ≡ false
max_float-not_before x y = elim (Bool-cases (lt_float x y)) [
  | inl later ↦ rw later (lt_float_asymm x y later)
  | inr early ↦ rw early (lt_float_irrefl x)
]

pub no_time :
    (previous : Float) (v : JsonValue)
    → is_number v ≡ false
    → NotBefore previous v × (last_time previous v ≡ previous)
no_time previous (bool b) h = cc
no_time previous (int n) h = cc
no_time previous (float x) h = cc
no_time previous null h = (tt, refl)
no_time previous (str s) h = (tt, refl)
no_time previous (arr items) h = (tt, refl)
no_time previous (obj fields) h = (tt, refl)

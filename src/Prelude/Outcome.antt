-- ===== src/Prelude/Outcome.antt =====
-- Functions that may raise: `err` holds what was raised.
use mathlib.Core.Path.{◌≡◌, refl}
use mathlib.Core.Bool.{Bool, true, false}
use mathlib.Core.Option.{Option, none, some}

pub data Result {ℓ κ} (E : Type ℓ) (A : Type κ) : Type (ℓ ⊔ κ) where
  ok : A → Result E A
  err : E → Result E A

infixl 5 ◌>>=◌ ◌>>◌
abbrev pub ◌>>=◌ {ℓ κ μ} :
    {E : Type ℓ} {A : Type κ} {B : Type μ} → Result E A → (A → Result E B) → Result E B
ok a >>= f = f a
err e >>= f = err e

abbrev pub ◌>>◌ {ℓ κ} : {E : Type ℓ} {B : Type κ} → Result E (Unit {0}) → Result E B → Result E B
m >> k = m >>= λ _. k

-- What follows from a chain of steps that returns, by what follows from each step.
pub from_ok {ℓ κ μ ν} :
    {E : Type ℓ} {A : Type κ} {B : Type μ} {Q : Type ν} (r : Result E A) (f : A → Result E B)
    {result : B}
    → (r >>= f) ≡ ok result
    → ((x : A) → r ≡ ok x → f x ≡ ok result → Q)
    → Q
from_ok (ok x) f h follows = follows x refl h
from_ok (err e) f h follows = cc

pub ok-injective {ℓ κ} :
    {E : Type ℓ} {A : Type κ} (x y : A) → ◌≡◌ {A = Result E A} (ok x) (ok y) → x ≡ y
ok-injective x y h = cc

-- `if not test: raise error`
abbrev pub guard {ℓ} : {E : Type ℓ} → Bool → E → Result E (Unit {0})
guard true error = ok tt
guard false error = err error

pub from_guard {ℓ κ μ} :
    {E : Type ℓ} {B : Type κ} {Q : Type μ} (test : Bool) (error : E) (r : Result E B) {result : B}
    → (guard test error >> r) ≡ ok result
    → (test ≡ true → r ≡ ok result → Q)
    → Q
from_guard true error r h follows = follows refl h
from_guard false error r h follows = cc

-- A value that may be missing, and what is raised then.
abbrev pub or_error {ℓ κ} : {E : Type ℓ} {A : Type κ} → E → Option A → Result E A
or_error error none = err error
or_error error (some x) = ok x

pub ok_of_or_error {ℓ κ} :
    {E : Type ℓ} {A : Type κ} (error : E) (o : Option A) (x : A)
    → or_error error o ≡ ok x
    → o ≡ some x
ok_of_or_error error none x h = cc
ok_of_or_error error (some y) x h = cc

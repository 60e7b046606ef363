-- ===== src/Common/Results.antt =====
-- Errors as values, and database actions: a state is threaded, and what was written stays written
-- after a throw, unless a transaction rolls it back.
use mathlib.Core.Path.{◌≡◌, refl}
use mathlib.Core.Logic.{◌≢◌, ◌⊎◌, inl, inr}
use mathlib.Core.Bool.{Bool, true, false}
use mathlib.Core.Option.{Option, none, some}

pub data Result (E A : Type 0) : Type 0 where
  ok : A → Result E A
  err : E → Result E A

-- The value of a call, or the error that it throws, with the state that it leaves.
abbrev pub Action : Type 0 → Type 0 → Type 0 → Type 0
Action S E A = S → Result E A × S

module _ {S E A : Type 0} where
  abbrev pub pure : A → Action S E A
  pure a s = (ok a, s)

  abbrev pub raise : E → Action S E A
  raise e s = (err e, s)

  abbrev pub lift : Result E A → Action S E A
  lift r s = (r, s)

  abbrev pub or_raise : Option A → E → Action S E A
  or_raise none e s = (err e, s)
  or_raise (some a) e s = (ok a, s)

abbrev pub or_error : {E A : Type 0} → Option A → E → Result E A
or_error none e = err e
or_error (some a) e = ok a

abbrev pub gets : {S E A : Type 0} → (S → A) → Action S E A
gets f s = (ok (f s), s)

abbrev pub raise_if : {S E : Type 0} → Bool → E → Action S E (Unit {0})
raise_if true e s = (err e, s)
raise_if false e s = (ok tt, s)

abbrev pub error_if : {E : Type 0} → Bool → E → Result E (Unit {0})
error_if true e = err e
error_if false e = ok tt

pub Result-cases :
    {E A : Type 0} (r : Result E A) → ((a : A) × (r ≡ ok a)) ⊎ ((e : E) × (r ≡ err e))
Result-cases (ok a) = inl (a, refl)
Result-cases (err e) = inr (e, refl)

pub err-injective : {E A : Type 0} {e e' : E} → ◌≡◌ {A = Result E A} (err e) (err e') → e ≡ e'
err-injective h = cc

pub ok-injective : {E A : Type 0} {a a' : A} → ◌≡◌ {A = Result E A} (ok a) (ok a') → a ≡ a'
ok-injective h = cc

pub ok-ne-err : {E A : Type 0} {e : E} {a : A} → ok a ≢ err e
ok-ne-err h = cc

-- ===== src/Common/Steps.antt =====
-- `do` blocks of checks that only return or throw.
use mathlib.Core.Path.{◌≡◌, refl, sym}
use mathlib.Core.Bool.{Bool, true, false}
use modula_backend.Common.Results.{Result, ok, err, error_if, ok-ne-err}

infixl 5 ◌>>=◌ ◌>>◌
abbrev pub ◌>>=◌ : {E A B : Type 0} → Result E A → (A → Result E B) → Result E B
ok a >>= f = f a
err e >>= f = err e

abbrev pub ◌>>◌ : {E B : Type 0} → Result E (Unit {0}) → Result E B → Result E B
m >> k = m >>= λ _. k

-- A block that returns has returned from its first step.
pub >>=-invert :
    {E A B : Type 0} (m : Result E A) (f : A → Result E B) (b : B)
    → (m >>= f) ≡ ok b
    → (a : A) × (m ≡ ok a) × (f a ≡ ok b)
>>=-invert (ok a) f b h = (a, refl, h)
>>=-invert (err e) f b h = absurd (ok-ne-err (sym h))

pub error_if_passed :
    {E : Type 0} (c : Bool) (e : E) (u : Unit {0}) → error_if c e ≡ ok u → c ≡ false
error_if_passed false e u h = refl
error_if_passed true e u h = absurd (ok-ne-err (sym h))

-- ===== src/PosOperation/CashSession/Money.antt =====
-- Amounts in requests (`parseMoney` and its variants in cashSession/app/service.ts).
-- A request's amount is what `Number(input)` gives: `none` if that is not finite, else the number
-- in ten-thousandths. `Number.EPSILON` in `roundMoney` only offsets floating-point error.
use modula_backend.Common.{
  ℕ, zero, suc, ◌+◌, ◌*◌, ◌/◌, ◌≡◌, Option, none, some, ℤ, pos, negsuc, ltb_ℤ, arith, Result, ok,
  err, if◌then◌else◌,
}
use modula_backend.Common.Steps.{◌>>=◌}
use modula_backend.PosOperation.CashSession.Failures.{Failure, cash_error, uncoded}

-- Half a cent and more rounds up, as `Math.round` does.
unfoldable pub negative_cents : ℕ → ℤ
negative_cents zero = pos 0
negative_cents (suc k) = negsuc k

unfoldable pub round_money : ℤ → ℤ
unfolding negative_cents
round_money (pos n) = pos ((n + 50) / 100)
round_money (negsuc n) = negative_cents ((n + 50) / 100)

-- An amount in cents, in ten-thousandths.
unfoldable pub from_cents : ℤ → ℤ
from_cents (pos n) = pos (n * 100)
from_cents (negsuc n) = negsuc (n * 100 + 99)

minus_cents : (n : ℕ) → (n * 100 + 99 + 50) / 100 ≡ suc n
minus_cents n = omega arith

-- Whole cents are not changed by rounding.
pub round_money-from_cents : (a : ℤ) → round_money (from_cents a) ≡ a
unfolding round_money from_cents
round_money-from_cents (pos n) = ground arith
round_money-from_cents (negsuc n) = rw (minus_cents n)

unfoldable pub parse_money : Option ℤ → Result Failure ℤ
parse_money none = err (cash_error 422 uncoded)
parse_money (some value) = ok (round_money value)

unfoldable pub reject_negative : ℤ → Result Failure ℤ
reject_negative value = if ltb_ℤ value (pos 0) then err (cash_error 422 uncoded) else ok value

unfoldable pub parse_money_non_negative : Option ℤ → Result Failure ℤ
unfolding parse_money reject_negative
parse_money_non_negative input = do reject_negative (← parse_money input)

-- An amount that may be missing: `none` if the field is `undefined`, `null` or "".
unfoldable pub parse_optional_money_non_negative : Option (Option ℤ) → Result Failure (Option ℤ)
unfolding parse_money_non_negative
parse_optional_money_non_negative none = ok none
parse_optional_money_non_negative (some input) = do ok (some (← parse_money_non_negative input))

-- ===== src/PosOperation/CashSession/Bodies.antt =====
-- The request bodies of cashSession/app/service.ts and their checks. A body is `none` where it is no
-- object; its amounts are what `Number` reads in them (see CashSession/Money), its texts what
-- `String` gives, `none` for a missing field.
use modula_backend.Common.{
  ◌&&◌, ◌++◌, Option, none, some, Text, codes, is_empty, if◌then◌else◌, ℤ, is_zero, Result, ok,
  or_error, error_if,
}
use modula_backend.Common.Steps.{◌>>=◌, ◌>>◌}
use modula_backend.PosOperation.CashSession.Failures.{
  Failure, cash_error, uncoded, cash_session_force_reason_required, cash_movement_amount_required,
  cash_movement_reason_required,
}
use modula_backend.PosOperation.CashSession.Money.{
  parse_money, parse_money_non_negative, parse_optional_money_non_negative,
}
use modula_backend.PosOperation.CashSession.Guards.{trimmed}

-- `normalizeOptionalString` of shared/utils/string.ts.
unfoldable pub normalize_optional_string : Option Text → Option Text
normalize_optional_string input =
    let normalized = trimmed input in if is_empty normalized then none else some normalized

unfoldable pub as_record : {A : Type 0} → Option A → Result Failure A
as_record body = or_error body (cash_error 422 uncoded)

pub record OpenBody : Type 0 where
  pub opening_float_usd : Option ℤ
  pub opening_float_khr : Option ℤ
  pub note : Option Text

pub record OpenInput : Type 0 where
  pub opening_float_usd : ℤ
  pub opening_float_khr : ℤ
  pub note : Option Text

unfoldable pub parse_open_body : Option OpenBody → Result Failure OpenInput
unfolding as_record
parse_open_body input = do
  data_ ← as_record input
  opening_float_usd ← parse_money_non_negative data_.opening_float_usd
  opening_float_khr ← parse_money_non_negative data_.opening_float_khr
  ok (record {
    opening_float_usd = opening_float_usd;
    opening_float_khr = opening_float_khr;
    note = normalize_optional_string data_.note;
  })

pub record CloseBody : Type 0 where
  pub counted_cash_usd : Option ℤ
  pub counted_cash_khr : Option ℤ
  pub note : Option Text

pub record CloseCount : Type 0 where
  pub counted_cash_usd : ℤ
  pub counted_cash_khr : ℤ
  pub note : Option Text

unfoldable pub parse_close_body : Option CloseBody → Result Failure CloseCount
unfolding as_record
parse_close_body input = do
  data_ ← as_record input
  counted_cash_usd ← parse_money_non_negative data_.counted_cash_usd
  counted_cash_khr ← parse_money_non_negative data_.counted_cash_khr
  ok (record {
    counted_cash_usd = counted_cash_usd;
    counted_cash_khr = counted_cash_khr;
    note = normalize_optional_string data_.note;
  })

-- A count may be missing.
pub record ForceCloseBody : Type 0 where
  pub counted_cash_usd : Option (Option ℤ)
  pub counted_cash_khr : Option (Option ℤ)
  pub reason : Option Text
  pub note : Option Text

pub record ForceCloseCount : Type 0 where
  pub counted_cash_usd : Option ℤ
  pub counted_cash_khr : Option ℤ
  pub reason : Text
  pub note : Option Text

unfoldable pub parse_force_close_body : Option ForceCloseBody → Result Failure ForceCloseCount
unfolding as_record
parse_force_close_body input = do
  data_ ← as_record input
  let reason = trimmed data_.reason
  error_if (is_empty reason) (cash_error 422 cash_session_force_reason_required)
  counted_cash_usd ← parse_optional_money_non_negative data_.counted_cash_usd
  counted_cash_khr ← parse_optional_money_non_negative data_.counted_cash_khr
  ok (record {
    counted_cash_usd = counted_cash_usd;
    counted_cash_khr = counted_cash_khr;
    reason = reason;
    note = normalize_optional_string data_.note;
  })

-- `[reason, note].filter(Boolean).join(" | ")`, where the reason is not empty.
abbrev pub join_note : Text → Option Text → Text
join_note reason none = reason
join_note reason (some note) = reason ++ (codes " | " ++ note)

-- The body of a paid-in, a paid-out or an adjustment.
pub record MovementBody : Type 0 where
  pub amount_usd : Option ℤ
  pub amount_khr : Option ℤ
  pub reason : Option Text

pub record MovementInput : Type 0 where
  pub amount_usd : ℤ
  pub amount_khr : ℤ
  pub reason : Text

unfoldable pub check_movement : ℤ → ℤ → Option Text → Result Failure MovementInput
check_movement amount_usd amount_khr raw_reason = do
  error_if (is_zero amount_usd && is_zero amount_khr) (cash_error 422 cash_movement_amount_required)
  let reason = trimmed raw_reason
  error_if (is_empty reason) (cash_error 422 cash_movement_reason_required)
  ok (record { amount_usd = amount_usd; amount_khr = amount_khr; reason = reason })

-- `parsePaidInBody` and `parsePaidOutBody`, which are the same.
unfoldable pub parse_paid_body : Option MovementBody → Result Failure MovementInput
unfolding as_record check_movement
parse_paid_body input = do
  data_ ← as_record input
  amount_usd ← parse_money_non_negative data_.amount_usd
  amount_khr ← parse_money_non_negative data_.amount_khr
  check_movement amount_usd amount_khr data_.reason

unfoldable pub parse_adjustment_body : Option MovementBody → Result Failure MovementInput
unfolding as_record check_movement
parse_adjustment_body input = do
  data_ ← as_record input
  amount_usd ← parse_money data_.amount_usd
  amount_khr ← parse_money data_.amount_khr
  check_movement amount_usd amount_khr data_.reason

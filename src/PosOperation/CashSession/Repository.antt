-- ===== src/PosOperation/CashSession/Repository.antt =====
-- The statements of cashSession/infra/repository.ts, with the constraints and the column types of their tables
-- (migrations/025_create_v0_cash_session_tables.sql).
use modula_backend.Common.{
  ℕ, Bool, true, ◌&&◌, ◌||◌, Option, none, some, List, [], ◌∷◌, Text, ◌==◌, leb, is_some,
  if◌then◌else◌, find_row, update_rows, ℤ, pos, ltb_ℤ, negate, not, length, ltb, ok, err, Action,
}
use mathlib.Core.Option
use modula_backend.PosOperation.CashSession.Rows.{
  CashSessionStatus, is_open, open_session, CashCloseReason, CashMovementType,
  CashMovementSourceRefType, CashSessionRow, CashMovementRow, CashDb, Tick,
}
use modula_backend.PosOperation.CashSession.Failures.{
  Failure, unique_violation, check_violation, value_out_of_range,
}

-- NUMERIC(12,2) and NUMERIC(14,2), in cents.
unfoldable pub fits_usd : ℤ → Bool
fits_usd a = ltb_ℤ a (pos 1000000000000) && ltb_ℤ (negate a) (pos 1000000000000)

unfoldable pub fits_khr : ℤ → Bool
fits_khr a = ltb_ℤ a (pos 100000000000000) && ltb_ℤ (negate a) (pos 100000000000000)

pub record NewSession : Type 0 where
  pub tenant_id : Text
  pub branch_id : Text
  pub opened_by_account_id : Text
  pub opening_float_usd : ℤ
  pub opening_float_khr : ℤ
  pub opening_note : Option Text

unfoldable pub is_active_in : Text → Text → CashSessionRow → Bool
is_active_in tenant branch s = (s.tenant_id == tenant && s.branch_id == branch) && is_open s.status

unfoldable pub is_session : Text → Text → CashSessionRow → Bool
is_session tenant id s = s.tenant_id == tenant && s.id == id

abbrev pub later : CashSessionRow → Option CashSessionRow → CashSessionRow
later s none = s
later s (some t) = if leb t.opened_at s.opened_at then s else t

-- `ORDER BY opened_at DESC LIMIT 1` over the rows that pass the test.
unfoldable pub latest_opened : (CashSessionRow → Bool) → List CashSessionRow → Option CashSessionRow
latest_opened p [] = none
latest_opened p (s ∷ rows) =
    let rest = latest_opened p rows in if p s then some (later s rest) else rest

unfoldable pub get_session_by_id : Text → Text → CashDb → Option CashSessionRow
get_session_by_id tenant id db = find_row (is_session tenant id) db.sessions

unfoldable pub get_active_session_by_branch : Text → Text → CashDb → Option CashSessionRow
get_active_session_by_branch tenant branch db =
    latest_opened (is_active_in tenant branch) db.sessions

-- `closed_at IS NULL OR at <= closed_at`.
abbrev pub not_closed_before : ℕ → Option ℕ → Bool
not_closed_before at none = true
not_closed_before at (some closed_at) = leb at closed_at

unfoldable pub find_session_by_occurred_at : Text → Text → ℕ → CashDb → Option CashSessionRow
find_session_by_occurred_at tenant branch at db =
    latest_opened
      (λ s.
        (s.tenant_id == tenant && s.branch_id == branch)
        && (leb s.opened_at at && not_closed_before at s.closed_at))
      db.sessions

abbrev pub new_session_row : NewSession → Tick → CashSessionRow
new_session_row input tick = record {
  id = tick.new_id;
  tenant_id = input.tenant_id;
  branch_id = input.branch_id;
  opened_by_account_id = input.opened_by_account_id;
  opened_at = tick.now;
  status = open_session;
  opening_float_usd = input.opening_float_usd;
  opening_float_khr = input.opening_float_khr;
  opening_note = input.opening_note;
  closed_by_account_id = none;
  closed_at = none;
  close_reason = none;
  close_note = none;
}

-- The precision of the opening float and its two CHECKs, and uq_v0_cash_sessions_one_open_per_branch.
unfoldable pub create_session : NewSession → Tick → Action CashDb Failure CashSessionRow
unfolding is_active_in
create_session input tick db =
    if not (fits_usd input.opening_float_usd && fits_khr input.opening_float_khr)
    then (err value_out_of_range, db)
    else if ltb_ℤ input.opening_float_usd (pos 0) || ltb_ℤ input.opening_float_khr (pos 0)
    then (err check_violation, db)
    else if is_some (find_row (is_active_in input.tenant_id input.branch_id) db.sessions)
    then (err unique_violation, db)
    else (
      ok (new_session_row input tick),
      record db { sessions = new_session_row input tick ∷ db.sessions },
    )

pub record CloseInput : Type 0 where
  pub tenant_id : Text
  pub session_id : Text
  pub status : CashSessionStatus
  pub close_reason : CashCloseReason
  pub closed_by_account_id : Text
  pub close_note : Option Text
  pub closed_at : ℕ

abbrev pub close_row : CloseInput → CashSessionRow → CashSessionRow
close_row input s = record s {
  status = input.status;
  close_reason = some input.close_reason;
  closed_by_account_id = some input.closed_by_account_id;
  closed_at = some input.closed_at;
  close_note = input.close_note;
}

unfoldable pub is_open_session : Text → Text → CashSessionRow → Bool
is_open_session tenant id s = is_session tenant id s && is_open s.status

unfoldable pub close_session : CloseInput → CashDb → Option CashSessionRow × CashDb
close_session input db = (
  Option.map (close_row input)
      (find_row (is_open_session input.tenant_id input.session_id) db.sessions),
  record db {
    sessions =
        update_rows (is_open_session input.tenant_id input.session_id) (close_row input)
          db.sessions;
  },
)

pub record NewMovement : Type 0 where
  pub tenant_id : Text
  pub branch_id : Text
  pub cash_session_id : Text
  pub movement_type : CashMovementType
  pub amount_usd_delta : ℤ
  pub amount_khr_delta : ℤ
  pub reason : Option Text
  pub source_ref_type : CashMovementSourceRefType
  pub source_ref_id : Option Text
  pub idempotency_key : Text
  pub recorded_by_account_id : Text
  pub occurred_at : Option ℕ

abbrev pub or_now : Option ℕ → ℕ → ℕ
or_now none now = now
or_now (some at) now = at

-- The precision of the amounts, and VARCHAR(128) of the key.
unfoldable pub fits_movement : NewMovement → Bool
fits_movement input =
    (fits_usd input.amount_usd_delta && fits_khr input.amount_khr_delta)
    && not (ltb 128 (length input.idempotency_key))

abbrev pub new_movement_row : NewMovement → Tick → CashMovementRow
new_movement_row input tick = record {
  id = tick.new_id;
  tenant_id = input.tenant_id;
  branch_id = input.branch_id;
  cash_session_id = input.cash_session_id;
  movement_type = input.movement_type;
  amount_usd_delta = input.amount_usd_delta;
  amount_khr_delta = input.amount_khr_delta;
  reason = input.reason;
  source_ref_type = input.source_ref_type;
  source_ref_id = input.source_ref_id;
  idempotency_key = input.idempotency_key;
  recorded_by_account_id = input.recorded_by_account_id;
  occurred_at = or_now input.occurred_at tick.now;
}

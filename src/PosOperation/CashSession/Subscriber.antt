-- ===== src/PosOperation/CashSession/Subscriber.antt =====
-- cashSession/app/subscribers.ts: a finalized cash sale is entered into the session in which it was
-- finalized. The change that is appended to the sync feed in the same transaction is returned, as the
-- id and time of the movement that it carries.
pub mod Redelivery
use modula_backend.Common.{
  ℕ, Bool, true, false, not, ◌&&◌, ◌||◌, Option, none, some, ◌++◌, Text, codes, ◌==◌, if◌then◌else◌,
  find_row, ℤ, pos, Result, ok, err, is_some,
}
use modula_backend.PosOperation.CashSession.Rows.{
  sale_in, sale, CashSessionRow, CashMovementRow, SalePaymentMethod, cash, khqr, TenderCurrency,
  usd, khr, SaleRow, CashDb, Tick,
}
use modula_backend.PosOperation.CashSession.Failures.{Failure, unique_violation}
use modula_backend.PosOperation.CashSession.Repository.{NewMovement, find_session_by_occurred_at}
use modula_backend.PosOperation.CashSession.Movements.{append_movement}
use modula_backend.PosOperation.CashSession.Totals.{is_finalized}

-- `asOutboxBusEvent`: the three fields that are used, already trimmed and not empty.
pub record OutboxBusEvent : Type 0 where
  pub tenant_id : Text
  pub branch_id : Text
  pub entity_id : Text

unfoldable pub get_sale_by_id : OutboxBusEvent → CashDb → Option SaleRow
get_sale_by_id event db =
    find_row
      (λ x.
        (x.tenant_id == event.tenant_id && x.branch_id == event.branch_id)
        && x.id == event.entity_id)
      db.sales

abbrev pub is_cash : SalePaymentMethod → Bool
is_cash cash = true
is_cash khqr = false

abbrev pub tender_in : TenderCurrency → TenderCurrency → ℤ → ℤ
tender_in usd usd x = x
tender_in khr khr x = x
tender_in _ _ x = pos 0

-- `buildSaleCashMovementAnchor`.
unfoldable pub build_sale_cash_movement_anchor : Text → Text
build_sale_cash_movement_anchor sale_id = codes "sale:" ++ sale_id

abbrev pub account_or : Option Text → Text → Text
account_or none a = a
account_or (some b) a = b

unfoldable pub sale_movement : OutboxBusEvent → SaleRow → ℕ → CashSessionRow → NewMovement
sale_movement event x finalized_at session = record {
  tenant_id = event.tenant_id;
  branch_id = event.branch_id;
  cash_session_id = session.id;
  movement_type = sale_in;
  amount_usd_delta = tender_in usd x.tender_currency x.tender_amount;
  amount_khr_delta = tender_in khr x.tender_currency x.tender_amount;
  reason = some (codes "Sale " ++ x.id);
  source_ref_type = sale;
  source_ref_id = some x.id;
  idempotency_key = build_sale_cash_movement_anchor x.id;
  recorded_by_account_id = account_or x.finalized_by_account_id session.opened_by_account_id;
  occurred_at = some finalized_at;
}

-- The finalization time of a sale that the subscriber enters.
abbrev pub entered_at : SaleRow → Option ℕ
entered_at x = if is_finalized x.status && is_cash x.payment_method then x.finalized_at else none

-- `none` where nothing was done; a unique violation means that the sale was entered before.
abbrev pub skip_duplicate :
    Result Failure CashMovementRow × CashDb → Result Failure (Option CashMovementRow) × CashDb
skip_duplicate (ok movement, db) = (ok (some movement), db)
skip_duplicate (err unique_violation, db) = (ok none, db)
skip_duplicate (err e, db) = (err e, db)

abbrev pub enter_in :
    OutboxBusEvent
    → SaleRow
    → ℕ
    → Option CashSessionRow
    → Tick
    → CashDb
    → Result Failure (Option CashMovementRow) × CashDb
enter_in event x at none tick db = (ok none, db)
enter_in event x at (some session) tick db =
    skip_duplicate (append_movement (sale_movement event x at session) tick db)

abbrev pub enter_at :
    OutboxBusEvent
    → SaleRow
    → Option ℕ
    → Tick
    → CashDb
    → Result Failure (Option CashMovementRow) × CashDb
enter_at event x none tick db = (ok none, db)
enter_at event x (some at) tick db =
    enter_in event x at (find_session_by_occurred_at event.tenant_id event.branch_id at db) tick db

abbrev pub enter_sale :
    OutboxBusEvent
    → Option SaleRow
    → Tick
    → CashDb
    → Result Failure (Option CashMovementRow) × CashDb
enter_sale event none tick db = (ok none, db)
enter_sale event (some x) tick db = enter_at event x (entered_at x) tick db

unfoldable pub append_cash_sale_movement :
    OutboxBusEvent → Tick → CashDb → Result Failure (Option CashMovementRow) × CashDb
append_cash_sale_movement event tick db = enter_sale event (get_sale_by_id event db) tick db

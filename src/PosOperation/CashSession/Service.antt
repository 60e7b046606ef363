-- ===== src/PosOperation/CashSession/Service.antt =====
-- The operations on sessions in cashSession/app/service.ts: opening, closing and force-closing.
-- The display names that `mapSessionWithNames` adds to the answer are left out.
pub mod CloseWith
pub mod Cases
pub mod Closed
use modula_backend.Common.{
  ◌≡◌, Bool, true, false, not, Option, none, some, List, ◌∷◌, Text, is_some, if◌then◌else◌,
  find_row, delete_rows, ◌==◌, ◌&&◌, ℤ, ◌+ℤ◌, ◌-ℤ◌, Result, ok, err, Action, pure, gets, raise_if,
  or_raise, lift,
}
use modula_backend.Common.Chain.{◌>>=◌, ◌>>◌}
use modula_backend.Platform.Roles.{RoleKey, is_till_staff, is_supervisor}
use modula_backend.PosOperation.CashSession.Rows.{
  CashSessionStatus, closed, force_closed, CashCloseReason, normal_close, force_close,
  CashSessionRow, CashMovementTotalsRow, StoredTotals, stored_totals, CashReconciliationSnapshotRow,
  CashDb, Tick,
}
use modula_backend.PosOperation.CashSession.Failures.{
  Failure, cash_error, cash_session_already_open, cash_session_not_open, value_out_of_range,
}
use modula_backend.PosOperation.CashSession.Money.{round_money, from_cents}
use modula_backend.PosOperation.CashSession.Repository.{
  get_active_session_by_branch, create_session, close_session, fits_usd, fits_khr,
}
use modula_backend.PosOperation.CashSession.Totals.{summarize_movement_totals}
use modula_backend.PosOperation.CashSession.Guards.{
  ActorContext, Actor, assert_branch_context, resolve_actor_role, assert_role,
  require_session_for_branch, require_open, assert_session_ownership_for_cashier,
}
use modula_backend.PosOperation.CashSession.Bodies.{
  OpenBody, parse_open_body, CloseBody, parse_close_body, ForceCloseBody, parse_force_close_body,
  join_note,
}

unfoldable pub open_cash_session :
    ActorContext → Option OpenBody → Tick → Action CashDb Failure CashSessionRow
open_cash_session context raw_body tick = do
  actor ← assert_branch_context context
  role ← resolve_actor_role actor
  assert_role is_till_staff role
  body ← lift (parse_open_body raw_body)
  existing ← gets (get_active_session_by_branch actor.tenant_id actor.branch_id)
  raise_if (is_some existing) (cash_error 409 cash_session_already_open)
  create_session
      (record {
        tenant_id = actor.tenant_id;
        branch_id = actor.branch_id;
        opened_by_account_id = actor.account_id;
        opening_float_usd = body.opening_float_usd;
        opening_float_khr = body.opening_float_khr;
        opening_note = body.note;
      })
      tick

-- `roundMoney(opening + delta)`, on cents.
unfoldable pub expected_cash : ℤ → ℤ → ℤ
expected_cash opening delta = round_money (from_cents (opening +ℤ delta))

-- `roundMoney(counted - expected)`, on cents.
unfoldable pub variance_of : ℤ → ℤ → ℤ
variance_of counted expected = round_money (from_cents (counted -ℤ expected))

unfoldable pub snapshot_of_session : Text → Text → CashReconciliationSnapshotRow → Bool
snapshot_of_session tenant session x = x.tenant_id == tenant && x.cash_session_id == session

abbrev pub or_else : {A : Type 0} → Option A → A → A
or_else none a = a
or_else (some b) a = b

-- The precision of the amounts of a snapshot.
abbrev pub totals_fit : StoredTotals → Bool
totals_fit t =
    ((fits_usd t.total_sales_non_cash_usd && fits_khr t.total_sales_non_cash_khr)
      && (fits_usd t.total_sales_khqr_usd && fits_khr t.total_sales_khqr_khr))
    && ((fits_usd t.total_sale_in_usd && fits_khr t.total_sale_in_khr)
        && (fits_usd t.total_refund_out_usd && fits_khr t.total_refund_out_khr))
    && ((fits_usd t.total_manual_in_usd && fits_khr t.total_manual_in_khr)
        && (fits_usd t.total_manual_out_usd && fits_khr t.total_manual_out_khr))
    && (fits_usd t.total_adjustment_usd && fits_khr t.total_adjustment_khr)

unfoldable pub fits_snapshot : CashReconciliationSnapshotRow → Bool
fits_snapshot x =
    totals_fit x.totals
    && (fits_usd x.opening_float_usd && fits_khr x.opening_float_khr)
    && (fits_usd x.expected_cash_usd && fits_khr x.expected_cash_khr)
    && (fits_usd x.counted_cash_usd && fits_khr x.counted_cash_khr)
    && (fits_usd x.variance_usd && fits_khr x.variance_khr)

-- `INSERT ... ON CONFLICT (tenant_id, cash_session_id) DO UPDATE`: the row of the session is replaced;
-- the id of a replaced row is kept.
abbrev pub kept_id : Option CashReconciliationSnapshotRow → Text → Text
kept_id none id = id
kept_id (some x) id = x.id

unfoldable pub upsert_reconciliation_snapshot :
    CashReconciliationSnapshotRow → Action CashDb Failure (Unit {0})
upsert_reconciliation_snapshot row db =
    let same = snapshot_of_session row.tenant_id row.cash_session_id in
    if not (fits_snapshot row) then (err value_out_of_range, db) else (
      ok tt,
      record db {
        snapshots =
            record row { id = kept_id (find_row same db.snapshots) row.id }
            ∷ delete_rows same db.snapshots;
      },
    )

-- The counts and the way in which a session is closed.
pub record Closing : Type 0 where
  pub status : CashSessionStatus
  pub close_reason : CashCloseReason
  pub counted_cash_usd : Option ℤ
  pub counted_cash_khr : Option ℤ
  pub close_note : Option Text

unfoldable pub snapshot_row :
    Actor → CashSessionRow → CashMovementTotalsRow → Closing → Tick → CashReconciliationSnapshotRow
snapshot_row actor session totals closing tick =
    let expected_usd = expected_cash session.opening_float_usd totals.total_cash_delta_usd in
    let expected_khr = expected_cash session.opening_float_khr totals.total_cash_delta_khr in
    let counted_usd = or_else closing.counted_cash_usd expected_usd in
    let counted_khr = or_else closing.counted_cash_khr expected_khr in
    record {
      id = tick.new_id;
      tenant_id = actor.tenant_id;
      branch_id = actor.branch_id;
      cash_session_id = session.id;
      status = closing.status;
      opening_float_usd = session.opening_float_usd;
      opening_float_khr = session.opening_float_khr;
      totals = stored_totals totals;
      expected_cash_usd = expected_usd;
      expected_cash_khr = expected_khr;
      counted_cash_usd = counted_usd;
      counted_cash_khr = counted_khr;
      variance_usd = variance_of counted_usd expected_usd;
      variance_khr = variance_of counted_khr expected_khr;
      close_reason = closing.close_reason;
      closed_by_account_id = actor.account_id;
      closed_at = tick.now;
    }

unfoldable pub close_session_row :
    Actor → CashSessionRow → Closing → Tick → CashDb → Option CashSessionRow × CashDb
close_session_row actor session closing tick = close_session (record {
  tenant_id = actor.tenant_id;
  session_id = session.id;
  status = closing.status;
  close_reason = closing.close_reason;
  closed_by_account_id = actor.account_id;
  close_note = closing.close_note;
  closed_at = tick.now;
})

abbrev pub require_closed : Option CashSessionRow × CashDb → Result Failure CashSessionRow × CashDb
require_closed (none, db) = (err (cash_error 409 cash_session_not_open), db)
require_closed (some row, db) = (ok row, db)

-- The part that `closeSession` and `forceCloseSession` share: the totals are read, the row is closed,
-- and the snapshot is written.
unfoldable pub close_with :
    Actor → CashSessionRow → Closing → Tick → Action CashDb Failure CashSessionRow
unfolding require_open
close_with actor session closing tick = do
  require_open session
  totals ← gets (summarize_movement_totals actor.tenant_id session.id)
  row ← λ db. require_closed (close_session_row actor session closing tick db)
  upsert_reconciliation_snapshot (snapshot_row actor session totals closing tick)
  pure row

unfoldable pub close_cash_session :
    ActorContext → Option Text → Option CloseBody → Tick → Action CashDb Failure CashSessionRow
close_cash_session context session_id raw_body tick = do
  actor ← assert_branch_context context
  role ← resolve_actor_role actor
  assert_role is_till_staff role
  body ← lift (parse_close_body raw_body)
  session ← require_session_for_branch actor session_id
  assert_session_ownership_for_cashier role actor session
  close_with actor session
      (record {
        status = closed;
        close_reason = normal_close;
        counted_cash_usd = some body.counted_cash_usd;
        counted_cash_khr = some body.counted_cash_khr;
        close_note = body.note;
      })
      tick

unfoldable pub force_close_session :
    ActorContext → Option Text → Option ForceCloseBody → Tick → Action CashDb Failure CashSessionRow
force_close_session context session_id raw_body tick = do
  actor ← assert_branch_context context
  role ← resolve_actor_role actor
  assert_role is_supervisor role
  body ← lift (parse_force_close_body raw_body)
  session ← require_session_for_branch actor session_id
  close_with actor session
      (record {
        status = force_closed;
        close_reason = force_close;
        counted_cash_usd = body.counted_cash_usd;
        counted_cash_khr = body.counted_cash_khr;
        close_note = some (join_note body.reason body.note);
      })
      tick

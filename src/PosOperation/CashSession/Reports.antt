-- ===== src/PosOperation/CashSession/Reports.antt =====
-- The X and Z reports of cashSession/app/service.ts. The display names are left out.
pub mod AfterClose
pub mod Frozen
use modula_backend.Common.{
  ℕ, Bool, true, false, Option, none, some, Text, find_row, ℤ, Action, pure, gets, raise_if,
  or_raise,
}
use modula_backend.Common.Chain.{◌>>=◌, ◌>>◌}
use modula_backend.PosOperation.CashSession.Rows.{
  CashSessionStatus, is_open, CashCloseReason, CashSessionRow, CashMovementTotalsRow, StoredTotals,
  stored_totals, CashReconciliationSnapshotRow, CashDb,
}
use modula_backend.PosOperation.CashSession.Failures.{
  Failure, cash_error, cash_session_not_closed, cash_session_z_report_not_found,
}
use modula_backend.PosOperation.CashSession.Totals.{summarize_movement_totals}
use modula_backend.PosOperation.CashSession.Guards.{
  ActorContext, assert_branch_context, resolve_actor_role, require_session_for_branch,
  assert_session_ownership_for_cashier,
}
use modula_backend.PosOperation.CashSession.Service.{expected_cash, snapshot_of_session}

pub record XReport : Type 0 where
  pub session_id : Text
  pub status : CashSessionStatus
  pub opened_at : ℕ
  pub closed_at : Option ℕ
  pub opening_float_usd : ℤ
  pub opening_float_khr : ℤ
  pub totals : StoredTotals
  pub expected_cash_usd : ℤ
  pub expected_cash_khr : ℤ

pub record ZReport : Type 0 where
  pub x_report : XReport
  pub counted_cash_usd : ℤ
  pub counted_cash_khr : ℤ
  pub variance_usd : ℤ
  pub variance_khr : ℤ
  pub close_reason : CashCloseReason

unfoldable pub x_report_of : CashSessionRow → CashMovementTotalsRow → XReport
x_report_of session totals = record {
  session_id = session.id;
  status = session.status;
  opened_at = session.opened_at;
  closed_at = session.closed_at;
  opening_float_usd = session.opening_float_usd;
  opening_float_khr = session.opening_float_khr;
  totals = stored_totals totals;
  expected_cash_usd = expected_cash session.opening_float_usd totals.total_cash_delta_usd;
  expected_cash_khr = expected_cash session.opening_float_khr totals.total_cash_delta_khr;
}

unfoldable pub get_x_report : ActorContext → Option Text → Action CashDb Failure XReport
get_x_report context session_id = do
  actor ← assert_branch_context context
  role ← resolve_actor_role actor
  session ← require_session_for_branch actor session_id
  assert_session_ownership_for_cashier role actor session
  totals ← gets (summarize_movement_totals actor.tenant_id session.id)
  pure (x_report_of session totals)

unfoldable pub get_reconciliation_snapshot_by_session :
    Text → Text → CashDb → Option CashReconciliationSnapshotRow
get_reconciliation_snapshot_by_session tenant session db =
    find_row (snapshot_of_session tenant session) db.snapshots

unfoldable pub z_report_of : CashSessionRow → CashReconciliationSnapshotRow → ZReport
z_report_of session snapshot = record {
  x_report = record {
    session_id = session.id;
    status = session.status;
    opened_at = session.opened_at;
    closed_at = session.closed_at;
    opening_float_usd = snapshot.opening_float_usd;
    opening_float_khr = snapshot.opening_float_khr;
    totals = snapshot.totals;
    expected_cash_usd = snapshot.expected_cash_usd;
    expected_cash_khr = snapshot.expected_cash_khr;
  };
  counted_cash_usd = snapshot.counted_cash_usd;
  counted_cash_khr = snapshot.counted_cash_khr;
  variance_usd = snapshot.variance_usd;
  variance_khr = snapshot.variance_khr;
  close_reason = snapshot.close_reason;
}

unfoldable pub get_z_report : ActorContext → Option Text → Action CashDb Failure ZReport
get_z_report context session_id = do
  actor ← assert_branch_context context
  role ← resolve_actor_role actor
  session ← require_session_for_branch actor session_id
  assert_session_ownership_for_cashier role actor session
  raise_if (is_open session.status) (cash_error 422 cash_session_not_closed)
  snapshot ← gets (get_reconciliation_snapshot_by_session actor.tenant_id session.id)
  found ← or_raise snapshot (cash_error 404 cash_session_z_report_not_found)
  pure (z_report_of session found)

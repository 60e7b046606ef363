-- ===== src/PosOperation/CashSession/Service/CloseWith.antt =====
-- The shared last part of closing a session (cashSession/app/service.ts), on every way through it.
use modula_backend.Common.{◌≡◌, some, true, ok, arith, find_row, update_rows, delete_rows, ◌∷◌}
use modula_backend.Common.Chain.{◌>>=◌}
use mathlib.Core.Option
use modula_backend.PosOperation.CashSession.Rows.{
  CashSessionRow, CashReconciliationSnapshotRow, CashDb, Tick, is_open,
}
use modula_backend.PosOperation.CashSession.Repository.{
  CloseInput, close_session, close_row, is_open_session,
}
use modula_backend.PosOperation.CashSession.Totals.{summarize_movement_totals}
use modula_backend.PosOperation.CashSession.Guards.{Actor, require_open}
use modula_backend.PosOperation.CashSession.Service.{
  Closing, snapshot_row, upsert_reconciliation_snapshot, close_session_row, close_with,
  snapshot_of_session, kept_id,
}

module _ (actor : Actor) (session : CashSessionRow) (closing : Closing) (tick : Tick) where
  abbrev pub close_input : CloseInput
  close_input = record {
    tenant_id = actor.tenant_id;
    session_id = session.id;
    status = closing.status;
    close_reason = closing.close_reason;
    closed_by_account_id = actor.account_id;
    close_note = closing.close_note;
    closed_at = tick.now;
  }

  -- The totals of the session when it is closed, and the database that a close leaves.
  abbrev pub snapshot_at : CashDb → CashReconciliationSnapshotRow
  snapshot_at db =
      snapshot_row actor session (summarize_movement_totals actor.tenant_id session.id db) closing
        tick

  abbrev pub closed_db : CashDb → CashDb
  closed_db db =
      let row = snapshot_at db in
      let same = snapshot_of_session row.tenant_id row.cash_session_id in
      record db {
        sessions =
            update_rows (is_open_session actor.tenant_id session.id) (close_row close_input)
              db.sessions;
        snapshots =
            record row { id = kept_id (find_row same db.snapshots) row.id }
            ∷ delete_rows same db.snapshots;
      }

  module _ (db : CashDb) (row : CashSessionRow)
      (h : (close_with actor session closing tick db).0 ≡ ok row) where
    pub close_with_ok :
        (is_open session.status ≡ true)
        × (Option.map
              (close_row close_input)
              (find_row (is_open_session actor.tenant_id session.id) db.sessions)
            ≡ some row)
        × (close_with actor session closing tick db ≡ (ok row, closed_db db))
    unfolding close_with require_open close_session_row close_session upsert_reconciliation_snapshot
        ◌>>=◌
    close_with_ok = ground arith

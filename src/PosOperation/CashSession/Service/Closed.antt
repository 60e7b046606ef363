-- ===== src/PosOperation/CashSession/Service/Closed.antt =====
-- After a session was closed (cashSession/app/service.ts).
use modula_backend.Common.{
  ◌≡◌, refl, sym, some, Text, true, arith, eq_iff, eq_refl, subst, find_row, find_row-update_rows,
  find_row_holds,
}
use modula_backend.PosOperation.CashSession.Rows.{
  CashSessionRow, CashReconciliationSnapshotRow, is_open, CashDb, Tick,
}
use modula_backend.PosOperation.CashSession.Repository.{
  CloseInput, get_session_by_id, is_session, is_open_session, close_row,
}
use modula_backend.PosOperation.CashSession.Guards.{Actor}
use modula_backend.PosOperation.CashSession.Service.{
  Closing, kept_id, snapshot_of_session, snapshot_row, upsert_reconciliation_snapshot,
}
use modula_backend.PosOperation.CashSession.Service.CloseWith.{closed_db, snapshot_at, close_input}
use modula_backend.PosOperation.CashSession.Reports.{get_reconciliation_snapshot_by_session}

-- The id of a session that a query by id finds.
found_id :
    (tenant id : Text) (db : CashDb) (session : CashSessionRow)
    → get_session_by_id tenant id db ≡ some session
    → session.id ≡ id
unfolding get_session_by_id is_session
found_id tenant id db session h = ground (
  arith,
  find_row_holds (is_session tenant id) db.sessions session h,
  eq_iff session.tenant_id tenant,
  eq_iff session.id id,
)

close_row_keeps :
    (tenant id : Text) (input : CloseInput) (s : CashSessionRow)
    → is_session tenant id (close_row input s) ≡ is_session tenant id s
unfolding is_session
close_row_keeps tenant id input s = refl

module _ (actor : Actor) (session : CashSessionRow) (closing : Closing) (tick : Tick)
    (db : CashDb) where
  abbrev pub after : CashDb
  after = closed_db actor session closing tick db

  abbrev pub closed_row : CashSessionRow
  closed_row = close_row (close_input actor session closing tick) session

  closed_by_own_id :
      get_session_by_id actor.tenant_id session.id db ≡ some session
      → is_open session.status ≡ true
      → get_session_by_id actor.tenant_id session.id after ≡ some closed_row
  unfolding get_session_by_id is_open_session upsert_reconciliation_snapshot
  closed_by_own_id found opened =
      find_row-update_rows (is_session actor.tenant_id session.id) (λ s. is_open s.status)
        (close_row (close_input actor session closing tick)) db.sessions session
        (close_row_keeps actor.tenant_id session.id (close_input actor session closing tick)) found
        opened

  -- The id that found the open session finds it closed.
  pub get_session_by_id_closed :
      (id : Text)
      → get_session_by_id actor.tenant_id id db ≡ some session
      → is_open session.status ≡ true
      → get_session_by_id actor.tenant_id id after ≡ some closed_row
  get_session_by_id_closed id found opened =
      subst (λ i. get_session_by_id actor.tenant_id i after ≡ some closed_row)
        (found_id actor.tenant_id id db session found)
        (closed_by_own_id
          (subst (λ i. get_session_by_id actor.tenant_id i db ≡ some session)
            (sym (found_id actor.tenant_id id db session found)) found)
          opened)

  abbrev pub written : CashReconciliationSnapshotRow
  written =
      let row = snapshot_at actor session closing tick db in
      record row {
        id =
            kept_id (find_row (snapshot_of_session actor.tenant_id session.id) db.snapshots) row.id;
      }

  pub snapshot_found :
      get_reconciliation_snapshot_by_session actor.tenant_id session.id after ≡ some written
  unfolding get_reconciliation_snapshot_by_session snapshot_of_session
      upsert_reconciliation_snapshot snapshot_row
  snapshot_found = ground (arith, eq_refl actor.tenant_id, eq_refl session.id)

-- ===== src/PosOperation/CashSession/Commands/Invariant.antt =====
-- Every command and every sale event keeps the tables of cash sessions valid.
use modula_backend.Common.{
  ◌≡◌, sym, refl, subst, Text, true, false, Result, arith, All-delete, is_some, find_row, inl, inr,
  Result-cases, ap, ◌∙◌, ◌∷◌, ok, All, ◌+ℤ◌,
}
use modula_backend.Common.Chain.{Preserves}
use modula_backend.PosOperation.CashSession.Rows.{
  CashMovementRow, CashSessionRow, CashDb, Tick, is_open,
}
use modula_backend.PosOperation.CashSession.Failures.{Failure}
use modula_backend.PosOperation.CashSession.Money.{round_money-from_cents}
use modula_backend.PosOperation.CashSession.Repository.{
  NewSession, new_session_row, create_session, is_active_in, is_open_session, NewMovement,
  new_movement_row,
}
use modula_backend.PosOperation.CashSession.Movements.{append_movement, passes_checks}
use modula_backend.PosOperation.CashSession.Movements.Appending.{
  append_movement-Atomic, append_movement_ok, append_movement_checked,
}
use modula_backend.PosOperation.CashSession.Totals.Balance.{
  HasAllowedSigns, summarize_movement_totals_balance,
}
use modula_backend.PosOperation.CashSession.Guards.{Actor}
use modula_backend.PosOperation.CashSession.Service.{
  Closing, close_with, snapshot_row, expected_cash, variance_of,
}
use modula_backend.PosOperation.CashSession.Service.CloseWith.{
  close_with_ok, close_input, snapshot_at, closed_db,
}
use modula_backend.PosOperation.CashSession.Drawer.{catch_duplicate}
use modula_backend.PosOperation.CashSession.Commands.Valid.{IsValid, Reconciles}
use modula_backend.PosOperation.CashSession.Commands.OneOpen.{open_count_opened, open_count_closed}
use modula_backend.PosOperation.CashSession.Commands.Accounted.{IsAccounted-closed}

create_session_ok :
    (input : NewSession) (tick : Tick) (db : CashDb) (row : CashSessionRow)
    → (create_session input tick db).0 ≡ ok row
    → (is_some (find_row (is_active_in input.tenant_id input.branch_id) db.sessions) ≡ false)
      × ((create_session input tick db).1
          ≡ record db { sessions = new_session_row input tick ∷ db.sessions })
unfolding create_session
create_session_ok input tick db row h = ground arith

pub create_session-IsValid :
    (input : NewSession) (tick : Tick) → Preserves IsValid (create_session input tick)
create_session-IsValid input tick = record {
  preserves = λ db row h v.
      let (free, e) = create_session_ok input tick db row h in
      subst IsValid (sym e) (record {
        one_open = open_count_opened (new_session_row input tick) db.sessions free v.one_open;
        signs = v.signs;
        reconciled = v.reconciled;
        accounted = (inl refl, v.accounted);
      });
}

signs_of_checks :
    (input : NewMovement) (tick : Tick)
    → passes_checks input ≡ true
    → HasAllowedSigns (new_movement_row input tick)
unfolding passes_checks
signs_of_checks input tick h = ground arith

pub append_movement-IsValid :
    (input : NewMovement) (tick : Tick) (db : CashDb)
    → IsValid db
    → IsValid (append_movement input tick db).1
append_movement-IsValid input tick db v = elim (Result-cases (append_movement input tick db).0) [
  | inl (row, h) ↦ rw (append_movement_ok input tick db h) (record {
    one_open = v.one_open;
    signs = (signs_of_checks input tick (append_movement_checked input tick db h).1, v.signs);
    reconciled = v.reconciled;
    accounted = v.accounted;
  })
  | inr (e, h) ↦ subst IsValid (sym ((append_movement-Atomic input tick).keeps db e h)) v
]

snapshot-Reconciles :
    (actor : Actor) (session : CashSessionRow) (closing : Closing) (tick : Tick) (db : CashDb)
    (id : Text)
    → All HasAllowedSigns db.movements
    → Reconciles (record (snapshot_at actor session closing tick db) { id = id })
unfolding snapshot_row expected_cash variance_of
snapshot-Reconciles actor session closing tick db id signs =
    let (usd, khr) = summarize_movement_totals_balance actor.tenant_id session.id db signs in
    record {
      expected_usd = round_money-from_cents _ ∙ ap (λ d. session.opening_float_usd +ℤ d) usd;
      expected_khr = round_money-from_cents _ ∙ ap (λ d. session.opening_float_khr +ℤ d) khr;
      variance_usd = round_money-from_cents _;
      variance_khr = round_money-from_cents _;
    }

closed_db-IsValid :
    (actor : Actor) (session : CashSessionRow) (closing : Closing) (tick : Tick) (db : CashDb)
    → is_open closing.status ≡ false
    → IsValid db
    → IsValid (closed_db actor session closing tick db)
unfolding snapshot_row
closed_db-IsValid actor session closing tick db is_closed v = record {
  one_open = λ tenant branch. omega (
    arith,
    open_count_closed (close_input actor session closing tick)
        (is_open_session actor.tenant_id session.id) db.sessions tenant branch is_closed,
    v.one_open tenant branch,
  );
  signs = v.signs;
  reconciled = (
    snapshot-Reconciles actor session closing tick db _ v.signs,
    All-delete Reconciles _ db.snapshots v.reconciled,
  );
  accounted =
      IsAccounted-closed _ (close_input actor session closing tick) db.sessions db.snapshots
        v.accounted;
}

pub close_with-IsValid :
    (actor : Actor) (session : CashSessionRow) (closing : Closing) (tick : Tick)
    → is_open closing.status ≡ false
    → Preserves IsValid (close_with actor session closing tick)
close_with-IsValid actor session closing tick is_closed = record {
  preserves = λ db row h v.
      let (_, _, e) = close_with_ok actor session closing tick db row h in
      subst IsValid (sym (ap (λ o. o.1) e))
        (closed_db-IsValid actor session closing tick db is_closed v);
}

catch_duplicate_state : (o : Result Failure CashMovementRow × CashDb) → (catch_duplicate o).1 ≡ o.1
catch_duplicate_state o = ground arith

pub append_caught-IsValid :
    (input : NewMovement) (tick : Tick)
    → Preserves IsValid (λ db. catch_duplicate (append_movement input tick db))
append_caught-IsValid input tick = record {
  preserves = λ db row h v.
      subst IsValid (sym (catch_duplicate_state (append_movement input tick db)))
        (append_movement-IsValid input tick db v);
}

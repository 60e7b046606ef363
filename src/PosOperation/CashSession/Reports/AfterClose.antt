-- ===== src/PosOperation/CashSession/Reports/AfterClose.antt =====
-- What the Z report and the drawer answer once a session was closed (cashSession/app/service.ts).
use modula_backend.Common.{
  ◌≡◌, refl, ◌∙◌, ap, sym, Option, Text, Bool, true, false, Result, ok, arith, ◌+ℤ◌, ◌-ℤ◌,
  ok-ne-err, ok-injective, subst, ◌≢◌, or_raise,
}
use modula_backend.Common.Chain.{gets-Reads, raise_if-Reads, or_raise-Reads, >>=-ok}
use modula_backend.Platform.Roles.{RoleKey}
use modula_backend.PosOperation.CashSession.Rows.{
  CashMovementType, CashMovementRow, CashSessionRow, is_open, CashDb, Tick,
}
use modula_backend.PosOperation.CashSession.Failures.{
  Failure, cash_error, cash_session_not_closed, cash_session_z_report_not_found,
}
use modula_backend.PosOperation.CashSession.Money.{round_money-from_cents}
use modula_backend.PosOperation.CashSession.Totals.{summarize_movement_totals}
use modula_backend.PosOperation.CashSession.Guards.{
  ActorContext, Actor, assert_branch_context, require_session_for_branch,
  require_open_session_for_movement, assert_session_ownership_for_cashier, trimmed,
}
use modula_backend.PosOperation.CashSession.Guards.Reading.{
  assert_branch_context-Reads, resolve_actor_role-Reads, require_session_for_branch-Reads,
  assert_session_ownership_for_cashier-Reads,
}
use modula_backend.PosOperation.CashSession.Guards.Stable.{
  assert_branch_context_same, resolve_actor_role_same, require_open_session_for_movement_closed,
}
use modula_backend.PosOperation.CashSession.Bodies.{
  CloseBody, CloseCount, MovementBody, MovementInput,
}
use modula_backend.PosOperation.CashSession.Service.{
  close_cash_session, snapshot_row, expected_cash, variance_of, upsert_reconciliation_snapshot,
}
use modula_backend.PosOperation.CashSession.Service.CloseWith.{close_with_ok}
use modula_backend.PosOperation.CashSession.Service.Cases.{
  CanClose, closing_of, close_cash_session_accepted, close_cash_session-CanClose,
  require_session_for_branch_finds, require_session_for_branch_found,
}
use modula_backend.PosOperation.CashSession.Service.Closed.{
  after, closed_row, written, get_session_by_id_closed, snapshot_found,
}
use modula_backend.PosOperation.CashSession.Drawer.{record_manual}
use modula_backend.PosOperation.CashSession.Drawer.Cases.{record_manual-CanRecord}
use modula_backend.PosOperation.CashSession.Reports.{ZReport, z_report_of, get_z_report}

-- A Z report settles a session: the cash expected is the opening float and the cash delta of its
-- movements, and the variance is the count over that.
pub record Settles (session : CashSessionRow) (tenant : Text) (body : CloseCount) (db : CashDb)
    (z : ZReport) : Type 0 where
  pub expected_usd :
      z.x_report.expected_cash_usd
      ≡ session.opening_float_usd
        +ℤ (summarize_movement_totals tenant session.id db).total_cash_delta_usd
  pub expected_khr :
      z.x_report.expected_cash_khr
      ≡ session.opening_float_khr
        +ℤ (summarize_movement_totals tenant session.id db).total_cash_delta_khr
  pub variance_usd : z.variance_usd ≡ body.counted_cash_usd -ℤ z.x_report.expected_cash_usd
  pub variance_khr : z.variance_khr ≡ body.counted_cash_khr -ℤ z.x_report.expected_cash_khr

owned_same :
    (role : RoleKey) (actor : Actor) (s s' : CashSessionRow) (a b : CashDb)
    → s.opened_by_account_id ≡ s'.opened_by_account_id
    → (assert_session_ownership_for_cashier role actor s a).0
      ≡ (assert_session_ownership_for_cashier role actor s' b).0
unfolding assert_session_ownership_for_cashier
owned_same role actor s s' a b h = ground arith

module _ (context : ActorContext) (id : Option Text) (raw_body : Option CloseBody) (tick : Tick)
    (db : CashDb) where
  module _ (a : CanClose context id raw_body db) (opened : is_open a.session.status ≡ true) where
    abbrev now_closed : CashDb
    now_closed = after a.actor a.session (closing_of a.body) tick db

    abbrev z_report : ZReport
    z_report =
        z_report_of (closed_row a.actor a.session (closing_of a.body) tick db)
          (written a.actor a.session (closing_of a.body) tick db)

    session_after :
        (require_session_for_branch a.actor id now_closed).0
        ≡ ok (closed_row a.actor a.session (closing_of a.body) tick db)
    session_after =
        let (is_id, found, in_branch_) =
          require_session_for_branch_finds a.actor id db a.session a.session_is in
        require_session_for_branch_found a.actor id now_closed _ is_id
          (get_session_by_id_closed a.actor a.session (closing_of a.body) tick db (trimmed id) found
            opened)
          in_branch_

    z_report_after : get_z_report context id now_closed ≡ (ok z_report, now_closed)
    unfolding get_z_report upsert_reconciliation_snapshot
    z_report_after =
        >>=-ok _ (assert_branch_context-Reads context)
          (assert_branch_context_same now_closed db context refl ∙ a.actor_is)
        ∙ >>=-ok _ (resolve_actor_role-Reads a.actor)
            (resolve_actor_role_same now_closed db a.actor refl ∙ a.role_is)
        ∙ >>=-ok _ (require_session_for_branch-Reads a.actor id) session_after
        ∙ >>=-ok _ (assert_session_ownership_for_cashier-Reads a.role a.actor _)
            (owned_same a.role a.actor _ a.session now_closed db refl ∙ a.owned)
        ∙ >>=-ok _ (raise_if-Reads false (cash_error 422 cash_session_not_closed)) refl
        ∙ >>=-ok _ (gets-Reads _) refl
        ∙ >>=-ok _ (or_raise-Reads _ _) (
            ap (λ o. (or_raise o (cash_error 404 cash_session_z_report_not_found) now_closed).0)
              (snapshot_found a.actor a.session (closing_of a.body) tick db))

    Settles-after : Settles a.session a.actor.tenant_id a.body db z_report
    unfolding snapshot_row expected_cash variance_of z_report_of
    Settles-after = record {
      expected_usd = round_money-from_cents _;
      expected_khr = round_money-from_cents _;
      variance_usd = round_money-from_cents _;
      variance_khr = round_money-from_cents _;
    }

    closed_refuses :
        (session : CashSessionRow)
        → (require_open_session_for_movement a.actor id now_closed).0 ≢ ok session
    closed_refuses session h = ok-ne-err (
        sym h ∙ require_open_session_for_movement_closed a.actor id now_closed _ session_after refl)

    same_actor :
        (actor : Actor) → (assert_branch_context context now_closed).0 ≡ ok actor → a.actor ≡ actor
    unfolding upsert_reconciliation_snapshot
    same_actor actor h =
        ok-injective (sym a.actor_is ∙ assert_branch_context_same db now_closed context refl ∙ h)

  -- After a close that succeeds, the same actor's Z report of the session succeeds, changes nothing,
  -- and settles the session: with the body that was parsed and the session that was found, it
  -- expects the opening float and the cash delta of the movements up to the close, and its variance
  -- is the count over what is expected, in both currencies.
  pub close_cash_session-get_z_report :
      (row : CashSessionRow)
      → (close_cash_session context id raw_body tick db).0 ≡ ok row
      → (a : CanClose context id raw_body db) × (z : ZReport) × (get_z_report context id
            (close_cash_session context id raw_body tick db).1
          ≡ (ok z, (close_cash_session context id raw_body tick db).1))
        × Settles a.session a.actor.tenant_id a.body db z
  close_cash_session-get_z_report row h =
      let a = close_cash_session-CanClose context id raw_body tick db row h in
      let e = close_cash_session_accepted context id raw_body tick db a in
      let (opened, _, done) =
        close_with_ok a.actor a.session (closing_of a.body) tick db row
          (ap (λ o. o.0) (sym e) ∙ h) in
      (a, z_report a opened, rw (e, done) (z_report_after a opened), Settles-after a opened)

  -- After a close that succeeds, no manual movement of the same actor into that session succeeds, of
  -- any type, with any body, role or key.
  pub close_cash_session-record_manual :
      (row : CashSessionRow)
      → (close_cash_session context id raw_body tick db).0 ≡ ok row
      → (type : CashMovementType) (accepts : RoleKey → Bool)
        (parse : Option MovementBody → Result Failure MovementInput) (body : Option MovementBody)
        (key : Text) (tick' : Tick) (movement : CashMovementRow)
      → (record_manual type accepts parse context id body key tick'
          (close_cash_session context id raw_body tick db).1).0
        ≢ ok movement
  close_cash_session-record_manual row h type accepts parse body key tick' movement k =
      let a = close_cash_session-CanClose context id raw_body tick db row h in
      let e = close_cash_session_accepted context id raw_body tick db a in
      let (opened, _, done) =
        close_with_ok a.actor a.session (closing_of a.body) tick db row
          (ap (λ o. o.0) (sym e) ∙ h) in
      let m =
        record_manual-CanRecord type accepts parse context id body key tick' (now_closed a opened)
          movement (rw (e, done) at k) in
      closed_refuses a opened m.session (
        subst
          (λ actor.
            (require_open_session_for_movement actor id (now_closed a opened)).0 ≡ ok m.session)
          (sym (same_actor a opened m.actor m.actor_is)) m.session_is)

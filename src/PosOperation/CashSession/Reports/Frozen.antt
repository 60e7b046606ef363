-- ===== src/PosOperation/CashSession/Reports/Frozen.antt =====
-- A Z report and the sales that the outbox announces after the close (cashSession/app/subscribers.ts).
use modula_backend.Common.{◌≡◌, refl, Option, none, some, Text, ℕ, arith}
use modula_backend.Common.Chain.{◌>>=◌}
use modula_backend.PosOperation.CashSession.Rows.{CashSessionRow, SaleRow, CashDb, Tick}
use modula_backend.PosOperation.CashSession.Movements.{append_movement}
use modula_backend.PosOperation.CashSession.Repository.{NewMovement, get_session_by_id}
use modula_backend.PosOperation.CashSession.Guards.{
  ActorContext, assert_branch_context, branch_exists_and_active, resolve_actor_role,
  get_actor_role_in_tenant, parse_required_uuid, require_session_for_branch,
  assert_session_ownership_for_cashier,
}
use modula_backend.PosOperation.CashSession.Subscriber.{
  OutboxBusEvent, sale_movement, entered_at, enter_in, enter_at, enter_sale,
  append_cash_sale_movement, get_sale_by_id,
}
use modula_backend.PosOperation.CashSession.Subscriber.Redelivery.{skip_duplicate_state}
use modula_backend.PosOperation.CashSession.Reports.{
  get_z_report, get_reconciliation_snapshot_by_session,
}

-- What a Z report reads.
pub record SameForReports (a b : CashDb) : Type 0 where
  pub branches : a.branches ≡ b.branches
  pub memberships : a.memberships ≡ b.memberships
  pub sessions : a.sessions ≡ b.sessions
  pub snapshots : a.snapshots ≡ b.snapshots

same_refl : (a : CashDb) → SameForReports a a
same_refl a = record { branches = refl; memberships = refl; sessions = refl; snapshots = refl }

same_appended :
    (input : NewMovement) (tick : Tick) (db : CashDb)
    → SameForReports (append_movement input tick db).1 db
unfolding append_movement
same_appended input tick db = record {
  branches = ground arith;
  memberships = ground arith;
  sessions = ground arith;
  snapshots = ground arith;
}

module _ (event : OutboxBusEvent) (tick : Tick) (db : CashDb) where
  same_in :
      (x : SaleRow) (at : ℕ) (o : Option CashSessionRow)
      → SameForReports (enter_in event x at o tick db).1 db
  same_in x at none = same_refl db
  same_in x at (some session) =
      let input = sale_movement event x at session in
      rw (skip_duplicate_state (append_movement input tick db)) (same_appended input tick db)

  same_at : (x : SaleRow) (o : Option ℕ) → SameForReports (enter_at event x o tick db).1 db
  same_at x none = same_refl db
  same_at x (some at) = same_in x at _

  same_sale : (o : Option SaleRow) → SameForReports (enter_sale event o tick db).1 db
  same_sale none = same_refl db
  same_sale (some x) = same_at x (entered_at x)

get_z_report_same :
    (context : ActorContext) (id : Option Text) (a b : CashDb)
    → a.branches ≡ b.branches
    → a.memberships ≡ b.memberships
    → a.sessions ≡ b.sessions
    → a.snapshots ≡ b.snapshots
    → (get_z_report context id a).0 ≡ (get_z_report context id b).0
unfolding get_z_report assert_branch_context branch_exists_and_active resolve_actor_role
    get_actor_role_in_tenant parse_required_uuid require_session_for_branch get_session_by_id
    assert_session_ownership_for_cashier get_reconciliation_snapshot_by_session ◌>>=◌
get_z_report_same context id a b hb hm hs hr = ground arith

-- A sale event changes no Z report, also where it adds a movement to the session that was closed.
pub append_cash_sale_movement-get_z_report :
    (context : ActorContext) (id : Option Text) (event : OutboxBusEvent) (tick : Tick) (db : CashDb)
    → (get_z_report context id (append_cash_sale_movement event tick db).1).0
      ≡ (get_z_report context id db).0
unfolding append_cash_sale_movement
append_cash_sale_movement-get_z_report context id event tick db =
    let s = same_sale event tick db (get_sale_by_id event db) in
    get_z_report_same context id _ db s.branches s.memberships s.sessions s.snapshots

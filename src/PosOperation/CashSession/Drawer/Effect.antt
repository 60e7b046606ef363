-- ===== src/PosOperation/CashSession/Drawer/Effect.antt =====
-- What a manual movement leaves behind, and what repeating it meets (cashSession/app/service.ts).
use modula_backend.Common.{
  ◌≡◌, refl, ◌∙◌, ap, sym, Option, Text, Bool, true, Result, ok, err, arith,
}
use modula_backend.Platform.Roles.{RoleKey}
use modula_backend.PosOperation.CashSession.Rows.{CashMovementType, CashMovementRow, CashDb, Tick}
use modula_backend.PosOperation.CashSession.Failures.{Failure, cash_error, cash_movement_duplicate}
use modula_backend.PosOperation.CashSession.Repository.{
  NewMovement, new_movement_row, fits_movement,
}
use modula_backend.PosOperation.CashSession.Guards.{ActorContext}
use modula_backend.PosOperation.CashSession.Guards.Stable.{
  assert_branch_context_same, resolve_actor_role_same, assert_role_same,
  require_open_session_for_movement_same,
}
use modula_backend.PosOperation.CashSession.Bodies.{MovementBody, MovementInput}
use modula_backend.PosOperation.CashSession.Movements.{append_movement, passes_checks}
use modula_backend.PosOperation.CashSession.Movements.Appending.{
  with_movement, append_movement_ok, append_movement_checked, append_movement_again,
}
use modula_backend.PosOperation.CashSession.Drawer.{manual_movement, catch_duplicate, record_manual}
use modula_backend.PosOperation.CashSession.Drawer.Cases.{
  CanRecord, record_manual_accepted, record_manual-CanRecord,
}

catch_duplicate_ok :
    (o : Result Failure CashMovementRow × CashDb) (row : CashMovementRow)
    → (catch_duplicate o).0 ≡ ok row
    → o.0 ≡ ok row
catch_duplicate_ok o row h = ground arith

module _ (type : CashMovementType) (accepts : RoleKey → Bool)
    (parse : Option MovementBody → Result Failure MovementInput) (context : ActorContext)
    (id : Option Text) (raw_body : Option MovementBody) (key : Text) (tick : Tick)
    (db : CashDb) where
  abbrev pub movement : CanRecord type accepts parse context id raw_body db → NewMovement
  movement a = manual_movement type a.actor a.session a.body key

  module _ (row : CashMovementRow)
      (h : (record_manual type accepts parse context id raw_body key tick db).0 ≡ ok row) where
    -- A manual movement that succeeds passed its checks: the actor's branch is active, the role is
    -- accepted, the body parses and the session is open. Its row then passes the CHECKs of the table,
    -- and the call answers that row and adds it, changing nothing else.
    pub record_manual_effect :
        (a : CanRecord type accepts parse context id raw_body db) × ((fits_movement (movement a)
            ≡ true)
          × (passes_checks (movement a) ≡ true))
        × (record_manual type accepts parse context id raw_body key tick db
            ≡ (ok (new_movement_row (movement a) tick), with_movement (movement a) tick db))
    record_manual_effect =
        let a = record_manual-CanRecord type accepts parse context id raw_body key tick db row h in
        let e = record_manual_accepted type accepts parse context id raw_body key tick db a in
        let appended =
          catch_duplicate_ok (append_movement (movement a) tick db) row
            (ap (λ o. o.0) (sym e) ∙ h) in
        (
          a,
          append_movement_checked (movement a) tick db appended,
          e ∙ ap catch_duplicate (append_movement_ok (movement a) tick db appended),
        )

  -- The checks still pass after a movement was added.
  abbrev accepted_again :
      (input : NewMovement)
      → CanRecord type accepts parse context id raw_body db
      → CanRecord type accepts parse context id raw_body (with_movement input tick db)
  accepted_again input a =
      let db' = with_movement input tick db in
      record {
        actor = a.actor;
        role = a.role;
        body = a.body;
        session = a.session;
        actor_is = assert_branch_context_same db' db context refl ∙ a.actor_is;
        role_is = resolve_actor_role_same db' db a.actor refl ∙ a.role_is;
        role_can = assert_role_same db' db accepts a.role ∙ a.role_can;
        body_is = a.body_is;
        session_is = require_open_session_for_movement_same db' db a.actor id refl ∙ a.session_is;
      }

  -- A manual movement that succeeded, sent again with the same idempotency key, ends in the duplicate
  -- error and leaves the database as the first call left it.
  pub record_manual_again :
      (tick' : Tick) (row : CashMovementRow)
      → (record_manual type accepts parse context id raw_body key tick db).0 ≡ ok row
      → record_manual type accepts parse context id raw_body key tick'
          (record_manual type accepts parse context id raw_body key tick db).1
        ≡ (
          err (cash_error 409 cash_movement_duplicate),
          (record_manual type accepts parse context id raw_body key tick db).1,
        )
  record_manual_again tick' row h =
      let (a, checked, e) = record_manual_effect row h in
      rw e (
        record_manual_accepted type accepts parse context id raw_body key tick'
          (with_movement (movement a) tick db) (accepted_again (movement a) a)
        ∙ ap catch_duplicate (append_movement_again (movement a) tick tick' db checked))

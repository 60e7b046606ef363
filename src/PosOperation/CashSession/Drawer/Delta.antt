-- ===== src/PosOperation/CashSession/Drawer/Delta.antt =====
-- A manual movement in the totals of the sessions (cashSession/app/service.ts and its repository).
use modula_backend.Common.{
  ◌≡◌, refl, ◌∙◌, ap, Option, Text, Bool, true, eq_refl, Result, ok, arith, ◌+ℤ◌,
}
use modula_backend.Platform.Roles.{RoleKey}
use modula_backend.PosOperation.CashSession.Rows.{CashMovementType, CashMovementRow, CashDb, Tick}
use modula_backend.PosOperation.CashSession.Failures.{Failure}
use modula_backend.PosOperation.CashSession.Repository.{NewMovement, new_movement_row}
use modula_backend.PosOperation.CashSession.Totals.{summarize_movement_totals, total_of}
use modula_backend.PosOperation.CashSession.Guards.{ActorContext}
use modula_backend.PosOperation.CashSession.Bodies.{MovementBody, MovementInput}
use modula_backend.PosOperation.CashSession.Movements.{is_in_session, movements_of}
use modula_backend.PosOperation.CashSession.Movements.Appending.{with_movement}
use modula_backend.PosOperation.CashSession.Drawer.{manual_movement, delta_of, record_manual}
use modula_backend.PosOperation.CashSession.Drawer.Cases.{CanRecord}
use modula_backend.PosOperation.CashSession.Drawer.Effect.{movement, record_manual_effect}

module _ (input : NewMovement) (tick : Tick) (db : CashDb) (tenant session : Text) where
  usd_delta_in :
      is_in_session tenant session (new_movement_row input tick) ≡ true
      → (summarize_movement_totals tenant session
          (with_movement input tick db)).total_cash_delta_usd
        ≡ input.amount_usd_delta
          +ℤ (summarize_movement_totals tenant session db).total_cash_delta_usd
  unfolding summarize_movement_totals total_of movements_of
  usd_delta_in h = rw h refl

  khr_delta_in :
      is_in_session tenant session (new_movement_row input tick) ≡ true
      → (summarize_movement_totals tenant session
          (with_movement input tick db)).total_cash_delta_khr
        ≡ input.amount_khr_delta
          +ℤ (summarize_movement_totals tenant session db).total_cash_delta_khr
  unfolding summarize_movement_totals total_of movements_of
  khr_delta_in h = rw h refl

in_own_session :
    (input : NewMovement) (tick : Tick)
    → is_in_session input.tenant_id input.cash_session_id (new_movement_row input tick) ≡ true
unfolding is_in_session
in_own_session input tick = ground (arith, eq_refl input.tenant_id, eq_refl input.cash_session_id)

module _ (type : CashMovementType) (accepts : RoleKey → Bool)
    (parse : Option MovementBody → Result Failure MovementInput) (context : ActorContext)
    (id : Option Text) (raw_body : Option MovementBody) (key : Text) (tick : Tick) (db : CashDb)
    (row : CashMovementRow)
    (h : (record_manual type accepts parse context id raw_body key tick db).0 ≡ ok row) where
  abbrev left : CashDb
  left = (record_manual type accepts parse context id raw_body key tick db).1

  -- A manual movement that succeeds adds the signed amounts of its body to the cash delta of the
  -- session that was found, in both currencies.
  pub record_manual-total_cash_delta :
      (a : CanRecord type accepts parse context id raw_body db) × ((summarize_movement_totals
          a.actor.tenant_id a.session.id left).total_cash_delta_usd
        ≡ delta_of type a.body.amount_usd
          +ℤ (summarize_movement_totals a.actor.tenant_id a.session.id db).total_cash_delta_usd)
      × ((summarize_movement_totals a.actor.tenant_id a.session.id left).total_cash_delta_khr
          ≡ delta_of type a.body.amount_khr
            +ℤ (summarize_movement_totals a.actor.tenant_id a.session.id db).total_cash_delta_khr)
  unfolding manual_movement
  record_manual-total_cash_delta =
      let (a, _, e) =
        record_manual_effect type accepts parse context id raw_body key tick db row h in
      let input = movement type accepts parse context id raw_body key tick db a in
      (
        a,
        ap
              (λ o.
                (summarize_movement_totals a.actor.tenant_id a.session.id o.1).total_cash_delta_usd)
              e
            ∙ usd_delta_in input tick db a.actor.tenant_id a.session.id (in_own_session input tick),
        ap
              (λ o.
                (summarize_movement_totals a.actor.tenant_id a.session.id o.1).total_cash_delta_khr)
              e
            ∙ khr_delta_in input tick db a.actor.tenant_id a.session.id (in_own_session input tick),
      )

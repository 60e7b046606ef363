-- ===== src/PosOperation/CashSession/Drawer.antt =====
-- The manual movements of cashSession/app/service.ts: paid-in, paid-out and adjustment.
pub mod Cases
pub mod Effect
pub mod Delta
use modula_backend.Common.{
  Bool, true, false, Option, none, some, ◌++◌, Text, codes, ℤ, pos, ltb_ℤ, negate, if◌then◌else◌,
  Result, ok, err, Action, lift,
}
use modula_backend.Common.Chain.{◌>>=◌, ◌>>◌}
use modula_backend.Platform.Roles.{RoleKey, is_till_staff, is_supervisor}
use modula_backend.PosOperation.CashSession.Rows.{
  CashMovementType, manual_in, manual_out, adjustment, manual, CashSessionRow, CashMovementRow,
  CashDb, Tick,
}
use modula_backend.PosOperation.CashSession.Failures.{
  Failure, cash_error, unique_violation, cash_movement_duplicate,
}
use modula_backend.PosOperation.CashSession.Repository.{NewMovement}
use modula_backend.PosOperation.CashSession.Movements.{append_movement}
use modula_backend.PosOperation.CashSession.Guards.{
  ActorContext, Actor, assert_branch_context, resolve_actor_role, assert_role,
  require_open_session_for_movement,
}
use modula_backend.PosOperation.CashSession.Bodies.{
  MovementBody, MovementInput, parse_paid_body, parse_adjustment_body,
}

-- `body.amount > 0 ? -body.amount : body.amount`.
unfoldable pub paid_out_delta : ℤ → ℤ
paid_out_delta amount = if ltb_ℤ (pos 0) amount then negate amount else amount

abbrev pub delta_of : CashMovementType → ℤ → ℤ
delta_of manual_out amount = paid_out_delta amount
delta_of _ amount = amount

abbrev pub key_prefix : CashMovementType → Text
key_prefix manual_in = codes "paid-in:"
key_prefix manual_out = codes "paid-out:"
key_prefix _ = codes "adjustment:"

unfoldable pub manual_movement :
    CashMovementType → Actor → CashSessionRow → MovementInput → Text → NewMovement
manual_movement type actor session body key = record {
  tenant_id = actor.tenant_id;
  branch_id = actor.branch_id;
  cash_session_id = session.id;
  movement_type = type;
  amount_usd_delta = delta_of type body.amount_usd;
  amount_khr_delta = delta_of type body.amount_khr;
  reason = some body.reason;
  source_ref_type = manual;
  source_ref_id = none;
  idempotency_key = key_prefix type ++ key;
  recorded_by_account_id = actor.account_id;
  occurred_at = none;
}

-- The `catch`: a unique violation becomes the duplicate error.
abbrev pub catch_duplicate :
    Result Failure CashMovementRow × CashDb → Result Failure CashMovementRow × CashDb
catch_duplicate (err unique_violation, db) = (err (cash_error 409 cash_movement_duplicate), db)
catch_duplicate (err e, db) = (err e, db)
catch_duplicate (ok row, db) = (ok row, db)

unfoldable pub record_manual :
    CashMovementType
    → (RoleKey → Bool)
    → (Option MovementBody → Result Failure MovementInput)
    → ActorContext
    → Option Text
    → Option MovementBody
    → Text
    → Tick
    → Action CashDb Failure CashMovementRow
record_manual type accepts parse context session_id raw_body key tick = do
  actor ← assert_branch_context context
  role ← resolve_actor_role actor
  assert_role accepts role
  body ← lift (parse raw_body)
  session ← require_open_session_for_movement actor session_id
  λ db. catch_duplicate (append_movement (manual_movement type actor session body key) tick db)

unfoldable pub record_paid_in :
    ActorContext
    → Option Text
    → Option MovementBody
    → Text
    → Tick
    → Action CashDb Failure CashMovementRow
record_paid_in = record_manual manual_in is_till_staff parse_paid_body

unfoldable pub record_paid_out :
    ActorContext
    → Option Text
    → Option MovementBody
    → Text
    → Tick
    → Action CashDb Failure CashMovementRow
record_paid_out = record_manual manual_out is_till_staff parse_paid_body

unfoldable pub record_adjustment :
    ActorContext
    → Option Text
    → Option MovementBody
    → Text
    → Tick
    → Action CashDb Failure CashMovementRow
record_adjustment = record_manual adjustment is_supervisor parse_adjustment_body

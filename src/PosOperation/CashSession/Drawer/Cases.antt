-- ===== src/PosOperation/CashSession/Drawer/Cases.antt =====
-- The way through a manual movement of cashSession/app/service.ts.
use modula_backend.Common.{◌≡◌, Option, Text, Bool, Result, ok, ◌∙◌, ap, sym}
use modula_backend.Common.Chain.{lift-Reads, >>=-eq-ok, >>=-ok}
use modula_backend.Platform.Roles.{RoleKey}
use modula_backend.PosOperation.CashSession.Rows.{
  CashMovementType, CashSessionRow, CashMovementRow, CashDb, Tick,
}
use modula_backend.PosOperation.CashSession.Failures.{Failure}
use modula_backend.PosOperation.CashSession.Guards.{
  ActorContext, Actor, assert_branch_context, resolve_actor_role, assert_role,
  require_open_session_for_movement,
}
use modula_backend.PosOperation.CashSession.Guards.Reading.{
  assert_branch_context-Reads, resolve_actor_role-Reads, assert_role-Reads,
  require_open_session_for_movement-Reads,
}
use modula_backend.PosOperation.CashSession.Bodies.{MovementBody, MovementInput}
use modula_backend.PosOperation.CashSession.Movements.{append_movement}
use modula_backend.PosOperation.CashSession.Drawer.{manual_movement, catch_duplicate, record_manual}

module _ (type : CashMovementType) (accepts : RoleKey → Bool)
    (parse : Option MovementBody → Result Failure MovementInput) (context : ActorContext)
    (id : Option Text) (raw_body : Option MovementBody) where
  -- The checks of a manual movement pass, with what they yield.
  pub record CanRecord (db : CashDb) : Type 0 where
    pub actor : Actor
    pub role : RoleKey
    pub body : MovementInput
    pub session : CashSessionRow
    pub actor_is : (assert_branch_context context db).0 ≡ ok actor
    pub role_is : (resolve_actor_role actor db).0 ≡ ok role
    pub role_can : (assert_role accepts role db).0 ≡ ok tt
    pub body_is : parse raw_body ≡ ok body
    pub session_is : (require_open_session_for_movement actor id db).0 ≡ ok session

  module _ (key : Text) (tick : Tick) (db : CashDb) where
    pub record_manual_accepted :
        (a : CanRecord db)
        → record_manual type accepts parse context id raw_body key tick db
          ≡ catch_duplicate
              (append_movement (manual_movement type a.actor a.session a.body key) tick db)
    unfolding record_manual
    record_manual_accepted a =
        >>=-ok _ (assert_branch_context-Reads context) a.actor_is
        ∙ >>=-ok _ (resolve_actor_role-Reads a.actor) a.role_is
        ∙ >>=-ok _ (assert_role-Reads accepts a.role) a.role_can
        ∙ >>=-ok _ (lift-Reads (parse raw_body)) a.body_is
        ∙ >>=-ok _ (require_open_session_for_movement-Reads a.actor id) a.session_is

    pub record_manual-CanRecord :
        (row : CashMovementRow)
        → (record_manual type accepts parse context id raw_body key tick db).0 ≡ ok row
        → CanRecord db
    unfolding record_manual
    record_manual-CanRecord row h =
        let (actor, actor_is, e1) = >>=-eq-ok _ (assert_branch_context-Reads context) db row h in
        let (role, role_is, e2) =
          >>=-eq-ok _ (resolve_actor_role-Reads actor) db row (ap (λ o. o.0) (sym e1) ∙ h) in
        let (_, role_can, e3) =
          >>=-eq-ok _ (assert_role-Reads accepts role) db row (ap (λ o. o.0) (sym (e1 ∙ e2)) ∙ h) in
        let (body, body_is, e4) =
          >>=-eq-ok _ (lift-Reads (parse raw_body)) db row
            (ap (λ o. o.0) (sym (e1 ∙ e2 ∙ e3)) ∙ h) in
        let (session, session_is, _) =
          >>=-eq-ok _ (require_open_session_for_movement-Reads actor id) db row
            (ap (λ o. o.0) (sym (e1 ∙ e2 ∙ e3 ∙ e4)) ∙ h) in
        record {
          actor = actor;
          role = role;
          body = body;
          session = session;
          actor_is = actor_is;
          role_is = role_is;
          role_can = role_can;
          body_is = body_is;
          session_is = session_is;
        }

-- ===== src/PosOperation/CashSession/Service/Cases.antt =====
-- The way through `closeSession` of cashSession/app/service.ts that closes.
use modula_backend.Common.{◌≡◌, ◌∙◌, ap, sym, Option, some, Text, true, ok, arith, eq_iff}
use modula_backend.Common.Chain.{◌>>=◌, lift-Reads, >>=-eq-ok, >>=-ok}
use modula_backend.Platform.Roles.{RoleKey, is_till_staff}
use modula_backend.PosOperation.CashSession.Rows.{
  CashSessionRow, closed, normal_close, CashDb, Tick,
}
use modula_backend.PosOperation.CashSession.Repository.{get_session_by_id}
use modula_backend.PosOperation.CashSession.Guards.{
  ActorContext, Actor, assert_branch_context, resolve_actor_role, assert_role,
  require_session_for_branch, parse_required_uuid, trimmed, is_uuid,
  assert_session_ownership_for_cashier,
}
use modula_backend.PosOperation.CashSession.Guards.Reading.{
  assert_branch_context-Reads, resolve_actor_role-Reads, assert_role-Reads,
  require_session_for_branch-Reads, assert_session_ownership_for_cashier-Reads,
}
use modula_backend.PosOperation.CashSession.Bodies.{CloseBody, CloseCount, parse_close_body}
use modula_backend.PosOperation.CashSession.Service.{Closing, close_with, close_cash_session}

-- What a normal close writes of the counts.
abbrev pub closing_of : CloseCount → Closing
closing_of body = record {
  status = closed;
  close_reason = normal_close;
  counted_cash_usd = some body.counted_cash_usd;
  counted_cash_khr = some body.counted_cash_khr;
  close_note = body.note;
}

module _ (context : ActorContext) (id : Option Text) (raw_body : Option CloseBody) where
  -- The checks of a close pass, with what they yield.
  pub record CanClose (db : CashDb) : Type 0 where
    pub actor : Actor
    pub role : RoleKey
    pub body : CloseCount
    pub session : CashSessionRow
    pub actor_is : (assert_branch_context context db).0 ≡ ok actor
    pub role_is : (resolve_actor_role actor db).0 ≡ ok role
    pub role_can : (assert_role is_till_staff role db).0 ≡ ok tt
    pub body_is : parse_close_body raw_body ≡ ok body
    pub session_is : (require_session_for_branch actor id db).0 ≡ ok session
    pub owned : (assert_session_ownership_for_cashier role actor session db).0 ≡ ok tt

  module _ (tick : Tick) (db : CashDb) where
    pub close_cash_session_accepted :
        (a : CanClose db)
        → close_cash_session context id raw_body tick db
          ≡ close_with a.actor a.session (closing_of a.body) tick db
    unfolding close_cash_session
    close_cash_session_accepted a =
        >>=-ok _ (assert_branch_context-Reads context) a.actor_is
        ∙ >>=-ok _ (resolve_actor_role-Reads a.actor) a.role_is
        ∙ >>=-ok _ (assert_role-Reads _ a.role) a.role_can
        ∙ >>=-ok _ (lift-Reads (parse_close_body raw_body)) a.body_is
        ∙ >>=-ok _ (require_session_for_branch-Reads a.actor id) a.session_is
        ∙ >>=-ok _ (assert_session_ownership_for_cashier-Reads a.role a.actor a.session) a.owned

    pub close_cash_session-CanClose :
        (row : CashSessionRow)
        → (close_cash_session context id raw_body tick db).0 ≡ ok row
        → CanClose db
    unfolding close_cash_session
    close_cash_session-CanClose row h =
        let (actor, actor_is, e1) = >>=-eq-ok _ (assert_branch_context-Reads context) db row h in
        let (role, role_is, e2) =
          >>=-eq-ok _ (resolve_actor_role-Reads actor) db row (ap (λ o. o.0) (sym e1) ∙ h) in
        let (_, role_can, e3) =
          >>=-eq-ok _ (assert_role-Reads _ role) db row (ap (λ o. o.0) (sym (e1 ∙ e2)) ∙ h) in
        let (body, body_is, e4) =
          >>=-eq-ok _ (lift-Reads (parse_close_body raw_body)) db row
            (ap (λ o. o.0) (sym (e1 ∙ e2 ∙ e3)) ∙ h) in
        let (session, session_is, e5) =
          >>=-eq-ok _ (require_session_for_branch-Reads actor id) db row
            (ap (λ o. o.0) (sym (e1 ∙ e2 ∙ e3 ∙ e4)) ∙ h) in
        let (_, owned, _) =
          >>=-eq-ok _ (assert_session_ownership_for_cashier-Reads role actor session) db row
            (ap (λ o. o.0) (sym (e1 ∙ e2 ∙ e3 ∙ e4 ∙ e5)) ∙ h) in
        record {
          actor = actor;
          role = role;
          body = body;
          session = session;
          actor_is = actor_is;
          role_is = role_is;
          role_can = role_can;
          body_is = body_is;
          session_is = session_is;
          owned = owned;
        }

-- A session that is required for a branch is the one that its id finds there.
pub require_session_for_branch_finds :
    (actor : Actor) (id : Option Text) (db : CashDb) (session : CashSessionRow)
    → (require_session_for_branch actor id db).0 ≡ ok session
    → (is_uuid (trimmed id) ≡ true)
      × (get_session_by_id actor.tenant_id (trimmed id) db ≡ some session)
      × (session.branch_id ≡ actor.branch_id)
unfolding require_session_for_branch parse_required_uuid ◌>>=◌
require_session_for_branch_finds actor id db session h =
    ground (arith, eq_iff session.branch_id actor.branch_id)

pub require_session_for_branch_found :
    (actor : Actor) (id : Option Text) (db : CashDb) (session : CashSessionRow)
    → is_uuid (trimmed id) ≡ true
    → get_session_by_id actor.tenant_id (trimmed id) db ≡ some session
    → session.branch_id ≡ actor.branch_id
    → (require_session_for_branch actor id db).0 ≡ ok session
unfolding require_session_for_branch parse_required_uuid ◌>>=◌
require_session_for_branch_found actor id db session is_id found here_ =
    ground (arith, eq_iff session.branch_id actor.branch_id)

-- ===== src/PosOperation/CashSession/Guards/Stable.antt =====
-- The checks of cashSession/app/service.ts read three tables; where these agree, the checks answer
-- the same.
use modula_backend.Common.{◌≡◌, ok, err, Option, Text, arith, Bool, false}
use modula_backend.Common.Chain.{◌>>=◌}
use modula_backend.Platform.Roles.{RoleKey}
use modula_backend.PosOperation.CashSession.Rows.{CashSessionRow, CashDb, is_open}
use modula_backend.PosOperation.CashSession.Failures.{cash_error, cash_session_not_open}
use modula_backend.PosOperation.CashSession.Repository.{get_session_by_id}
use modula_backend.PosOperation.CashSession.Guards.{
  ActorContext, Actor, assert_branch_context, resolve_actor_role, assert_role, parse_required_uuid,
  require_session_for_branch, require_open, require_open_session_for_movement,
  branch_exists_and_active, get_actor_role_in_tenant,
}

module _ (a b : CashDb) where
  pub assert_branch_context_same :
      (context : ActorContext)
      → a.branches ≡ b.branches
      → (assert_branch_context context a).0 ≡ (assert_branch_context context b).0
  unfolding assert_branch_context branch_exists_and_active ◌>>=◌
  assert_branch_context_same context same = ground arith

  pub resolve_actor_role_same :
      (actor : Actor)
      → a.memberships ≡ b.memberships
      → (resolve_actor_role actor a).0 ≡ (resolve_actor_role actor b).0
  unfolding resolve_actor_role get_actor_role_in_tenant ◌>>=◌
  resolve_actor_role_same actor same = ground arith

  pub assert_role_same :
      (accepts : RoleKey → Bool) (role : RoleKey)
      → (assert_role accepts role a).0 ≡ (assert_role accepts role b).0
  unfolding assert_role
  assert_role_same accepts role = ground arith

  pub require_session_for_branch_same :
      (actor : Actor) (id : Option Text)
      → a.sessions ≡ b.sessions
      → (require_session_for_branch actor id a).0 ≡ (require_session_for_branch actor id b).0
  unfolding require_session_for_branch parse_required_uuid get_session_by_id ◌>>=◌
  require_session_for_branch_same actor id same = ground arith

  pub require_open_session_for_movement_same :
      (actor : Actor) (id : Option Text)
      → a.sessions ≡ b.sessions
      → (require_open_session_for_movement actor id a).0
        ≡ (require_open_session_for_movement actor id b).0
  unfolding require_open_session_for_movement require_session_for_branch parse_required_uuid
      get_session_by_id require_open ◌>>=◌
  require_open_session_for_movement_same actor id same = ground arith

-- A session that is not open takes no movement.
pub require_open_session_for_movement_closed :
    (actor : Actor) (id : Option Text) (db : CashDb) (s : CashSessionRow)
    → (require_session_for_branch actor id db).0 ≡ ok s
    → is_open s.status ≡ false
    → (require_open_session_for_movement actor id db).0 ≡ err (cash_error 409 cash_session_not_open)
unfolding require_open_session_for_movement require_open ◌>>=◌
require_open_session_for_movement_closed actor id db s h is_closed = ground arith

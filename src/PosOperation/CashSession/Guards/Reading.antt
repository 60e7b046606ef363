-- ===== src/PosOperation/CashSession/Guards/Reading.antt =====
-- The checks of cashSession/app/service.ts only read.
use modula_backend.Common.{Option, Text, Bool}
use modula_backend.Common.Chain.{
  Reads, raise_if-Reads, or_raise-Reads, gets-Reads, pure-Reads, >>=-Reads,
}
use modula_backend.Platform.Roles.{RoleKey}
use modula_backend.PosOperation.CashSession.Rows.{CashSessionRow}
use modula_backend.PosOperation.CashSession.Guards.{
  ActorContext, Actor, assert_branch_context, resolve_actor_role, assert_role, parse_required_uuid,
  require_session_for_branch, require_open, require_open_session_for_movement,
  assert_session_ownership_for_cashier,
}

pub assert_branch_context-Reads : (context : ActorContext) → Reads (assert_branch_context context)
unfolding assert_branch_context
assert_branch_context-Reads context = >>=-Reads _ (raise_if-Reads _ _) λ _.
    >>=-Reads _ (raise_if-Reads _ _) λ _.
      >>=-Reads _ (raise_if-Reads _ _)
        λ _. >>=-Reads _ (gets-Reads _) λ found. >>=-Reads _ (raise_if-Reads _ _) λ _. pure-Reads _

pub resolve_actor_role-Reads : (actor : Actor) → Reads (resolve_actor_role actor)
unfolding resolve_actor_role
resolve_actor_role-Reads actor = >>=-Reads _ (gets-Reads _) λ role. or_raise-Reads _ _

pub assert_role-Reads :
    (accepts : RoleKey → Bool) (role : RoleKey) → Reads (assert_role accepts role)
unfolding assert_role
assert_role-Reads accepts role = raise_if-Reads _ _

pub require_session_for_branch-Reads :
    (actor : Actor) (id : Option Text) → Reads (require_session_for_branch actor id)
unfolding require_session_for_branch parse_required_uuid
require_session_for_branch-Reads actor id =
    >>=-Reads _ (>>=-Reads _ (raise_if-Reads _ _) λ _. pure-Reads _)
      λ session_id. >>=-Reads _ (gets-Reads _) λ found. or_raise-Reads _ _

pub require_open-Reads : (session : CashSessionRow) → Reads (require_open session)
unfolding require_open
require_open-Reads session = raise_if-Reads _ _

pub require_open_session_for_movement-Reads :
    (actor : Actor) (id : Option Text) → Reads (require_open_session_for_movement actor id)
unfolding require_open_session_for_movement
require_open_session_for_movement-Reads actor id =
    >>=-Reads _ (require_session_for_branch-Reads actor id)
      λ session. >>=-Reads _ (require_open-Reads session) λ _. pure-Reads _

pub assert_session_ownership_for_cashier-Reads :
    (role : RoleKey) (actor : Actor) (session : CashSessionRow)
    → Reads (assert_session_ownership_for_cashier role actor session)
unfolding assert_session_ownership_for_cashier
assert_session_ownership_for_cashier-Reads role actor session = raise_if-Reads _ _

-- ===== src/PosOperation/CashSession/Guards.antt =====
-- The checks that every operation of cashSession/app/service.ts begins with.
pub mod Reading
pub mod Stable
use modula_backend.Common.{
  ℕ, Bool, true, false, not, ◌&&◌, ◌||◌, Option, none, some, [], List, ◌∷◌, Text, ◌==◌, eqb, leb,
  trim, is_empty, is_some, if◌then◌else◌, find_row, Action, pure, raise, gets, raise_if, or_raise,
}
use modula_backend.Common.Chain.{◌>>=◌, ◌>>◌}
use modula_backend.Platform.Roles.{RoleKey, is_cashier}
use modula_backend.PosOperation.CashSession.Rows.{
  CashSessionRow, is_open, CashDb, BranchRow, MembershipRow,
}
use modula_backend.PosOperation.CashSession.Failures.{
  Failure, cash_error, uncoded, tenant_context_required, branch_context_required, branch_not_found,
  no_membership, permission_denied, cash_session_not_found, cash_session_not_open,
  cash_session_forbidden_self_scope,
}
use modula_backend.PosOperation.CashSession.Repository.{get_session_by_id}

pub record ActorContext : Type 0 where
  pub account_id : Option Text
  pub tenant_id : Option Text
  pub branch_id : Option Text

-- An actor whose three ids are given and trimmed.
pub record Actor : Type 0 where
  pub account_id : Text
  pub tenant_id : Text
  pub branch_id : Text

-- `String(value ?? "").trim()`.
unfoldable pub trimmed : Option Text → Text
trimmed none = []
trimmed (some t) = trim t

unfoldable pub branch_exists_and_active : Text → Text → CashDb → Bool
branch_exists_and_active tenant branch db =
    is_some (find_row (λ b. (b.tenant_id == tenant && b.id == branch) && b.is_active) db.branches)

abbrev pub role_of : Option MembershipRow → Option RoleKey
role_of none = none
role_of (some m) = some m.role_key

unfoldable pub get_actor_role_in_tenant : Text → Text → CashDb → Option RoleKey
get_actor_role_in_tenant tenant account db = role_of (
    find_row (λ m. (m.tenant_id == tenant && m.account_id == account) && m.is_active)
      db.memberships)

unfoldable pub assert_branch_context : ActorContext → Action CashDb Failure Actor
unfolding branch_exists_and_active
assert_branch_context actor = do
  let account_id = trimmed actor.account_id
  let tenant_id = trimmed actor.tenant_id
  let branch_id = trimmed actor.branch_id
  raise_if (is_empty account_id) (cash_error 401 uncoded)
  raise_if (is_empty tenant_id) (cash_error 403 tenant_context_required)
  raise_if (is_empty branch_id) (cash_error 403 branch_context_required)
  raise_if (not (← gets (branch_exists_and_active tenant_id branch_id)))
      (cash_error 404 branch_not_found)
  pure (record { account_id = account_id; tenant_id = tenant_id; branch_id = branch_id })

unfoldable pub resolve_actor_role : Actor → Action CashDb Failure RoleKey
resolve_actor_role actor = do
  or_raise (← gets (get_actor_role_in_tenant actor.tenant_id actor.account_id))
      (cash_error 403 no_membership)

-- The five `assertCan...ForRole` differ in the roles that they accept.
unfoldable pub assert_role : (RoleKey → Bool) → RoleKey → Action CashDb Failure (Unit {0})
assert_role accepts role = raise_if (not (accepts role)) (cash_error 403 permission_denied)

abbrev pub is_hex_lower : ℕ → Bool
is_hex_lower c = (leb 48 c && leb c 57) || (leb 97 c && leb c 102)

-- A hexadecimal digit in either case.
abbrev pub is_hex : ℕ → Bool
is_hex c = is_hex_lower c || (leb 65 c && leb c 70)

abbrev pub is_version : ℕ → Bool
is_version c = leb 49 c && leb c 53

abbrev pub is_variant : ℕ → Bool
is_variant c = (eqb c 56 || eqb c 57) || ((eqb c 97 || eqb c 98) || (eqb c 65 || eqb c 66))

-- A text matches a list of classes, one for each code unit.
unfoldable pub matches : List (ℕ → Bool) → Text → Bool
matches [] [] = true
matches [] (c ∷ s) = false
matches (p ∷ ps) [] = false
matches (p ∷ ps) (c ∷ s) = p c && matches ps s

abbrev pub is_dash : ℕ → Bool
is_dash c = eqb c 45

-- /^[0-9a-f]{8}-[0-9a-f]{4}-[1-5][0-9a-f]{3}-[89ab][0-9a-f]{3}-[0-9a-f]{12}$/i
abbrev pub uuid_pattern : List (ℕ → Bool)
uuid_pattern =
    is_hex ∷ is_hex ∷ is_hex ∷ is_hex ∷ is_hex ∷ is_hex ∷ is_hex ∷ is_hex ∷ is_dash ∷ is_hex
    ∷ is_hex ∷ is_hex ∷ is_hex ∷ is_dash ∷ is_version ∷ is_hex ∷ is_hex ∷ is_hex ∷ is_dash
    ∷ is_variant ∷ is_hex ∷ is_hex ∷ is_hex ∷ is_dash ∷ is_hex ∷ is_hex ∷ is_hex ∷ is_hex ∷ is_hex
    ∷ is_hex ∷ is_hex ∷ is_hex ∷ is_hex ∷ is_hex ∷ is_hex ∷ is_hex ∷ []

unfoldable pub is_uuid : Text → Bool
unfolding matches
is_uuid value = matches uuid_pattern value

unfoldable pub parse_required_uuid : Option Text → Action CashDb Failure Text
parse_required_uuid input = do
  let value = trimmed input
  raise_if (not (is_uuid value)) (cash_error 422 uncoded)
  pure value

abbrev pub in_branch : Text → Option CashSessionRow → Option CashSessionRow
in_branch branch none = none
in_branch branch (some s) = if s.branch_id == branch then some s else none

unfoldable pub require_session_for_branch :
    Actor → Option Text → Action CashDb Failure CashSessionRow
unfolding parse_required_uuid
require_session_for_branch actor raw_session_id = do
  session_id ← parse_required_uuid raw_session_id
  found ← gets (get_session_by_id actor.tenant_id session_id)
  or_raise (in_branch actor.branch_id found) (cash_error 404 cash_session_not_found)

unfoldable pub require_open : CashSessionRow → Action CashDb Failure (Unit {0})
require_open session =
    raise_if (not (is_open session.status)) (cash_error 409 cash_session_not_open)

unfoldable pub require_open_session_for_movement :
    Actor → Option Text → Action CashDb Failure CashSessionRow
unfolding require_session_for_branch require_open
require_open_session_for_movement actor session_id = do
  session ← require_session_for_branch actor session_id
  require_open session
  pure session

unfoldable pub assert_session_ownership_for_cashier :
    RoleKey → Actor → CashSessionRow → Action CashDb Failure (Unit {0})
assert_session_ownership_for_cashier role actor session =
    raise_if (is_cashier role && not (session.opened_by_account_id == actor.account_id))
      (cash_error 403 cash_session_forbidden_self_scope)

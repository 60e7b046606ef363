-- ===== src/Platform/AccessControl/Tests.antt =====
-- A cashier who opens a drawer session in a branch, beside rows of another tenant.
use modula_backend.Common.{
  ◌≡◌, refl, ◌↔◌, ◌⊎◌, none, some, [], ◌∷◌, Text, codes, ◌==◌, Option, true, false, ok, trim,
}
use modula_backend.Platform.Roles.{manager, cashier}
use modula_backend.Platform.AccessControl.Types.{
  branch, write, token_tenant, token_branch, ProtectedRoute, ActionMetadata, V0Claims, Request,
  AccessDb, frozen, read_only,
}
use modula_backend.Platform.AccessControl.DataAccess.{
  get_tenant_status, get_subscription_state, is_member, get_active_membership, is_branch_of,
  get_branch_status, is_assignment, is_joined, has_active_branch_access, is_entitlement,
  get_branch_entitlement_enforcement, has_active_auth_session,
}
use modula_backend.Platform.AccessControl.Context.{
  normalize_id, resolve_tenant_id, resolve_branch_id, strip_prefix,
}
use modula_backend.Platform.AccessControl.Authorize.{
  authorize_tenant, authorize_branch, authorize_resolved, authorize_route, check_entitlement,
  evaluate_entitlement, is_upgrade_only, role_may_act, includes_role,
}
use modula_backend.Platform.AccessControl.Authorize.Permission.{
  Granted, authorize_tenant-iff-Granted,
}
use modula_backend.Platform.AccessControl.Authorize.Isolation.{only, authorize_tenant_isolated}
use modula_backend.Platform.AccessControl.Authorize.Monotone.{as_read, authorize_tenant-as_read}
use modula_backend.Platform.AccessControl.Hook.{
  access_control_hook, is_open_route, check_protected, match_protected_route,
  get_claims_from_request,
}
use modula_backend.Platform.AccessControl.Hook.Passing.{Authorized, access_control_hook_passes}

abbrev open_drawer : ActionMetadata
open_drawer = record {
  scope = branch;
  effect = write;
  allowed_roles = manager ∷ cashier ∷ [];
  entitlement_key = some (codes "core.pos");
}

abbrev catalog : Text → Option ActionMetadata
catalog key = some open_drawer

abbrev route : ProtectedRoute
route = record {
  method = codes "POST";
  pattern = λ path. path == codes "/cash/sessions";
  action_key = codes "cashSession.open";
  tenant_source = some token_tenant;
  branch_source = some token_branch;
}

abbrev claims : V0Claims
claims = record {
  account_id = some (codes "a1");
  sid = some (codes "s1");
  scope = some (codes "v0");
  tenant_id = some (codes "t1");
  branch_id = some (codes "b1");
}

abbrev verify : Text → Option V0Claims
verify token = some claims

abbrev req : Request
req = record {
  method = codes "POST";
  path = codes "/cash/sessions";
  authorization = some (codes "Bearer x");
  body_tenant_id = none;
  body_branch_id = none;
}

abbrev db : AccessDb
db = record {
  tenants =
      record { id = codes "t2"; is_active = false }
      ∷ record { id = codes "t1"; is_active = true }
      ∷ [];
  subscriptions = record { tenant_id = codes "t2"; state = frozen } ∷ [];
  memberships =
      record {
        id = codes "m1";
        tenant_id = codes "t1";
        account_id = codes "a1";
        role_key = codes "cashier";
        is_active = true;
      }
      ∷ [];
  branches = record { id = codes "b1"; tenant_id = codes "t1"; is_active = true } ∷ [];
  assignments =
      record {
        account_id = codes "a1";
        tenant_id = codes "t1";
        branch_id = codes "b1";
        membership_id = codes "m1";
        is_active = true;
      }
      ∷ [];
  entitlements =
      record {
        tenant_id = codes "t2";
        branch_id = codes "b1";
        entitlement_key = codes "core.pos";
        enforcement = read_only;
      }
      ∷ [];
  auth_sessions =
      record { id = codes "s1"; account_id = codes "a1"; is_revoked = false; expires_at = 9 } ∷ [];
}

cashier_may_open :
    authorize_tenant open_drawer
      (codes "cashSession.open")
      (codes "a1")
      (codes "t1")
      (some (codes "b1"))
      db
    ≡ ok tt
unfolding authorize_tenant authorize_branch get_tenant_status get_subscription_state is_member
    get_active_membership is_branch_of get_branch_status is_assignment is_joined
    has_active_branch_access is_entitlement get_branch_entitlement_enforcement check_entitlement
    evaluate_entitlement is_upgrade_only role_may_act includes_role ◌==◌
cashier_may_open = refl

authorize_tenant-iff-Granted_example :
    (authorize_tenant open_drawer
        (codes "cashSession.open")
        (codes "a1")
        (codes "t1")
        (some (codes "b1"))
        db
      ≡ ok tt)
    ↔ Granted open_drawer
        (codes "a1")
        (codes "t1")
        db
        (codes "cashSession.open")
        (some (codes "b1"))
authorize_tenant-iff-Granted_example =
    authorize_tenant-iff-Granted open_drawer (codes "a1") (codes "t1") db (codes "cashSession.open")
      (some (codes "b1"))

authorize_tenant_isolated_example :
    authorize_tenant open_drawer
      (codes "cashSession.open")
      (codes "a1")
      (codes "t1")
      (some (codes "b1"))
      (only (codes "t1") db)
    ≡ authorize_tenant open_drawer
        (codes "cashSession.open")
        (codes "a1")
        (codes "t1")
        (some (codes "b1"))
        db
authorize_tenant_isolated_example =
    authorize_tenant_isolated (codes "t1") db open_drawer (codes "cashSession.open") (codes "a1")
      (some (codes "b1"))

authorize_tenant-as_read_example :
    authorize_tenant
      (as_read open_drawer)
      (codes "cashSession.open")
      (codes "a1")
      (codes "t1")
      (some (codes "b1"))
      db
    ≡ ok tt
authorize_tenant-as_read_example =
    authorize_tenant-as_read open_drawer (codes "a1") (codes "t1") db (codes "cashSession.open")
      (some (codes "b1")) cashier_may_open

access_control_hook_passes_example :
    (access_control_hook catalog (route ∷ []) verify req 5 db ≡ ok tt)
    ↔ ((is_open_route req.method req.path ≡ true) ⊎ Authorized catalog (route ∷ []) verify req 5 db)
access_control_hook_passes_example = access_control_hook_passes catalog (route ∷ []) verify req 5 db

-- The hook passes the cashier's request on.
passes : access_control_hook catalog (route ∷ []) verify req 5 db ≡ ok tt
unfolding access_control_hook is_open_route check_protected match_protected_route
    get_claims_from_request strip_prefix trim has_active_auth_session authorize_route
    authorize_resolved resolve_tenant_id resolve_branch_id normalize_id authorize_tenant
    authorize_branch get_tenant_status get_subscription_state is_member get_active_membership
    is_branch_of get_branch_status is_assignment is_joined has_active_branch_access is_entitlement
    get_branch_entitlement_enforcement check_entitlement evaluate_entitlement is_upgrade_only
    role_may_act includes_role ◌==◌
passes = refl

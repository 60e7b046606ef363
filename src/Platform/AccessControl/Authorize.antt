-- ===== src/Platform/AccessControl/Authorize.antt =====
-- `authorizeRoute` of platform/access-control/authorize.ts, and `evaluateEntitlement` of
-- entitlements.ts. The catalogue of actions is an argument. An allowed request is `ok`.
pub mod Permission
pub mod Isolation
pub mod Monotone
use modula_backend.Common.{
  ℕ, Bool, true, false, not, ◌&&◌, ◌||◌, Option, none, some, List, [], ◌∷◌, Text, codes, ◌==◌, leb,
  ◌-◌, map, is_some, find_row, if◌then◌else◌, Result, ok, err, or_error, error_if,
}
use modula_backend.Common.Steps.{◌>>=◌, ◌>>◌}
use modula_backend.Platform.Roles.{RoleKey, owner, admin, manager, cashier, clerk, other}
use modula_backend.Platform.AccessControl.Types.{
  AccessControlScope, global, account, tenant, branch, AccessControlEffect, is_write,
  ProtectedRoute, ActionMetadata, V0Claims, Request, SubscriptionState, active, past_due, frozen,
  MembershipRow, Enforcement, enabled, read_only, disabled_visible, AccessDb,
}
use modula_backend.Platform.AccessControl.DataAccess.{
  get_tenant_status, get_subscription_state, get_active_membership, get_branch_status,
  has_active_branch_access, get_branch_entitlement_enforcement,
}
use modula_backend.Platform.AccessControl.Context.{resolve_tenant_id, resolve_branch_id}

pub data DenialCode : Type 0 where
  access_control_config_error tenant_context_required subscription_upgrade_required : DenialCode
  subscription_frozen tenant_not_found tenant_not_active no_membership permission_denied :
      DenialCode
  branch_context_required branch_not_found branch_frozen no_branch_access : DenialCode
  entitlement_blocked entitlement_read_only : DenialCode
  access_control_route_not_registered invalid_access_token : DenialCode

pub data Denial : Type 0 where
  deny : ℕ → DenialCode → Denial

abbrev pub is_past_due : SubscriptionState → Bool
is_past_due past_due = true
is_past_due _ = false

abbrev pub is_frozen : SubscriptionState → Bool
is_frozen frozen = true
is_frozen _ = false

-- `UPGRADE_ONLY_ACTIONS`.
unfoldable pub is_upgrade_only : Text → Bool
is_upgrade_only key =
    key == codes "org.branch.activation.initiate" || key == codes "org.branch.activation.confirm"

-- `toUpperCase` on ASCII letters; role keys are ASCII.
abbrev pub upper : ℕ → ℕ
upper c = if leb 97 c && leb c 122 then c - 32 else c

abbrev pub role_name : RoleKey → Text
role_name owner = codes "OWNER"
role_name admin = codes "ADMIN"
role_name manager = codes "MANAGER"
role_name cashier = codes "CASHIER"
role_name clerk = codes "CLERK"
role_name (other t) = t

unfoldable pub includes_role : List RoleKey → Text → Bool
includes_role roles key = is_some (find_row (λ r. role_name r == map upper key) roles)

-- No allowed roles means that every role may act.
unfoldable pub role_may_act : List RoleKey → MembershipRow → Bool
role_may_act [] m = true
role_may_act (r ∷ roles) m = includes_role (r ∷ roles) m.role_key

pub data EntitlementDecision : Type 0 where
  allowed blocked reads_only : EntitlementDecision

abbrev pub decide : Enforcement → EntitlementDecision
decide enabled = allowed
decide read_only = reads_only
decide disabled_visible = blocked

abbrev pub evaluate_key : Option Text → Option Text → Text → AccessDb → EntitlementDecision
evaluate_key none branch_id tenant_id db = allowed
evaluate_key (some key) none tenant_id db = allowed
evaluate_key (some key) (some branch_id) tenant_id db =
    decide (get_branch_entitlement_enforcement tenant_id branch_id key db)

unfoldable pub evaluate_entitlement :
    ActionMetadata → Text → Option Text → AccessDb → EntitlementDecision
evaluate_entitlement action tenant_id branch_id db =
    evaluate_key action.entitlement_key branch_id tenant_id db

abbrev pub is_blocked : EntitlementDecision → Bool
is_blocked blocked = true
is_blocked _ = false

abbrev pub is_reads_only : EntitlementDecision → Bool
is_reads_only reads_only = true
is_reads_only _ = false

unfoldable pub check_entitlement :
    AccessControlEffect → EntitlementDecision → Result Denial (Unit {0})
check_entitlement effect entitlement = do
  error_if (is_blocked entitlement) (deny 403 entitlement_blocked)
  error_if (is_reads_only entitlement && is_write effect) (deny 403 entitlement_read_only)

unfoldable pub authorize_branch :
    ActionMetadata → Text → Text → Option Text → AccessDb → Result Denial (Unit {0})
authorize_branch action account_id tenant_id found db = do
  branch_id ← or_error found (deny 403 branch_context_required)
  is_active ← or_error (get_branch_status tenant_id branch_id db) (deny 404 branch_not_found)
  error_if (is_write action.effect && not is_active) (deny 403 branch_frozen)
  error_if (not (has_active_branch_access account_id tenant_id branch_id db))
      (deny 403 no_branch_access)
  check_entitlement action.effect (evaluate_entitlement action tenant_id (some branch_id) db)

abbrev pub authorize_scope :
    AccessControlScope
    → ActionMetadata
    → Text
    → Text
    → Option Text
    → AccessDb
    → Result Denial (Unit {0})
authorize_scope branch action account_id tenant_id found db =
    authorize_branch action account_id tenant_id found db
authorize_scope _ action account_id tenant_id found db =
    check_entitlement action.effect (evaluate_entitlement action tenant_id none db)

-- The part that follows the tenant's resolution; `found` is the branch that the request resolves to.
unfoldable pub authorize_tenant :
    ActionMetadata → Text → Text → Text → Option Text → AccessDb → Result Denial (Unit {0})
authorize_tenant action action_key account_id tenant_id found db = do
  let state = get_subscription_state tenant_id db
  error_if (is_write action.effect && (is_past_due state && is_upgrade_only action_key))
      (deny 403 subscription_upgrade_required)
  error_if (is_write action.effect && is_frozen state) (deny 403 subscription_frozen)
  is_active ← or_error (get_tenant_status tenant_id db) (deny 404 tenant_not_found)
  error_if (is_write action.effect && not is_active) (deny 403 tenant_not_active)
  membership ← or_error (get_active_membership account_id tenant_id db) (deny 403 no_membership)
  error_if (not (role_may_act action.allowed_roles membership)) (deny 403 permission_denied)
  authorize_scope action.scope action account_id tenant_id found db

-- Actions on the system or on the caller's own account need no tenant.
abbrev pub needs_tenant : AccessControlScope → Bool
needs_tenant global = false
needs_tenant account = false
needs_tenant _ = true

unfoldable pub authorize_resolved :
    ActionMetadata → Text → Text → Option Text → Option Text → AccessDb → Result Denial (Unit {0})
authorize_resolved action action_key account_id found_tenant found_branch db = do
  tenant_id ← or_error found_tenant (deny 403 tenant_context_required)
  authorize_tenant action action_key account_id tenant_id found_branch db

unfoldable pub authorize_route :
    (Text → Option ActionMetadata)
    → ProtectedRoute
    → Request
    → Text
    → V0Claims
    → AccessDb
    → Result Denial (Unit {0})
authorize_route catalog route req account_id claims db = do
  action ← or_error (catalog route.action_key) (deny 500 access_control_config_error)
  if needs_tenant action.scope
      then authorize_resolved action route.action_key account_id
          (resolve_tenant_id route req claims db) (resolve_branch_id route req claims) db
      else ok tt

-- ===== src/Platform/AccessControl/DataAccess.antt =====
-- The queries of platform/access-control/data-access.ts.
use modula_backend.Common.{
  ℕ, Bool, not, ◌&&◌, Option, none, some, Text, ◌==◌, ltb, is_some, find_row,
}
use modula_backend.Platform.AccessControl.Types.{
  TenantRow, SubscriptionState, active, SubscriptionRow, MembershipRow, BranchRow, AssignmentRow,
  Enforcement, enabled, EntitlementRow, AccessDb,
}

-- Whether the tenant is active, `none` without the tenant.
abbrev pub tenant_is_active : Option TenantRow → Option Bool
tenant_is_active none = none
tenant_is_active (some t) = some t.is_active

unfoldable pub get_tenant_status : Text → AccessDb → Option Bool
get_tenant_status tenant db = tenant_is_active (find_row (λ t. t.id == tenant) db.tenants)

abbrev pub state_or_active : Option SubscriptionRow → SubscriptionState
state_or_active none = active
state_or_active (some s) = s.state

unfoldable pub get_subscription_state : Text → AccessDb → SubscriptionState
get_subscription_state tenant db =
    state_or_active (find_row (λ s. s.tenant_id == tenant) db.subscriptions)

unfoldable pub is_member : Text → Text → MembershipRow → Bool
is_member account tenant m = (m.account_id == account && m.tenant_id == tenant) && m.is_active

unfoldable pub get_active_membership : Text → Text → AccessDb → Option MembershipRow
get_active_membership account tenant db = find_row (is_member account tenant) db.memberships

unfoldable pub has_active_auth_session : Text → Text → ℕ → AccessDb → Bool
has_active_auth_session account session now db = is_some (
    find_row
      (λ s.
        (s.id == session && s.account_id == account) && (not s.is_revoked && ltb now s.expires_at))
      db.auth_sessions)

abbrev pub branch_is_active : Option BranchRow → Option Bool
branch_is_active none = none
branch_is_active (some b) = some b.is_active

unfoldable pub is_branch_of : Text → Text → BranchRow → Bool
is_branch_of tenant branch b = b.id == branch && b.tenant_id == tenant

unfoldable pub get_branch_status : Text → Text → AccessDb → Option Bool
get_branch_status tenant branch db =
    branch_is_active (find_row (is_branch_of tenant branch) db.branches)

unfoldable pub is_assignment : Text → Text → Text → AssignmentRow → Bool
is_assignment account tenant branch a =
    (a.account_id == account && a.tenant_id == tenant) && (a.branch_id == branch && a.is_active)

-- The two joins of an assignment.
unfoldable pub is_joined : Text → Text → AccessDb → AssignmentRow → Bool
is_joined account tenant db a =
    is_some (find_row (λ m. m.id == a.membership_id && is_member account tenant m) db.memberships)
    && is_some (find_row (λ b. b.id == a.branch_id && b.tenant_id == tenant) db.branches)

unfoldable pub has_active_branch_access : Text → Text → Text → AccessDb → Bool
has_active_branch_access account tenant branch db = is_some (
    find_row (λ a. is_assignment account tenant branch a && is_joined account tenant db a)
      db.assignments)

abbrev pub enforcement_or_enabled : Option EntitlementRow → Enforcement
enforcement_or_enabled none = enabled
enforcement_or_enabled (some e) = e.enforcement

unfoldable pub is_entitlement : Text → Text → Text → EntitlementRow → Bool
is_entitlement tenant branch key e =
    (e.tenant_id == tenant && e.branch_id == branch) && e.entitlement_key == key

unfoldable pub get_branch_entitlement_enforcement : Text → Text → Text → AccessDb → Enforcement
get_branch_entitlement_enforcement tenant branch key db =
    enforcement_or_enabled (find_row (is_entitlement tenant branch key) db.entitlements)

-- ===== src/Platform/AccessControl/Types.antt =====
-- The routes, actions and claims of platform/access-control/types.ts, and the tables that
-- data-access.ts reads. A route's regular expression is a test on paths.
use modula_backend.Common.{ℕ, Bool, true, false, Option, List, Text}
use modula_backend.Platform.Roles.{RoleKey}

pub data AccessControlScope : Type 0 where
  global account tenant branch : AccessControlScope

pub data AccessControlEffect : Type 0 where
  read write : AccessControlEffect

abbrev pub is_write : AccessControlEffect → Bool
is_write read = false
is_write write = true

pub data TenantSource : Type 0 where
  token_tenant body_tenant_id path_membership_id : TenantSource

pub data BranchSource : Type 0 where
  token_branch body_branch_id path_branch_id : BranchSource

pub record ProtectedRoute : Type 0 where
  pub method : Text
  pub pattern : Text → Bool
  pub action_key : Text
  pub tenant_source : Option TenantSource
  pub branch_source : Option BranchSource

pub record ActionMetadata : Type 0 where
  pub scope : AccessControlScope
  pub effect : AccessControlEffect
  pub allowed_roles : List RoleKey
  pub entitlement_key : Option Text

-- What `jwt.verify` decodes; a field of another type than text is `none`.
pub record V0Claims : Type 0 where
  pub account_id : Option Text
  pub sid : Option Text
  pub scope : Option Text
  pub tenant_id : Option Text
  pub branch_id : Option Text

-- The parts of a request that are read; `method` is in upper case.
pub record Request : Type 0 where
  pub method : Text
  pub path : Text
  pub authorization : Option Text
  pub body_tenant_id : Option Text
  pub body_branch_id : Option Text

pub record TenantRow : Type 0 where
  pub id : Text
  pub is_active : Bool

pub data SubscriptionState : Type 0 where
  active past_due frozen : SubscriptionState

pub record SubscriptionRow : Type 0 where
  pub tenant_id : Text
  pub state : SubscriptionState

pub record MembershipRow : Type 0 where
  pub id : Text
  pub tenant_id : Text
  pub account_id : Text
  pub role_key : Text
  pub is_active : Bool

pub record BranchRow : Type 0 where
  pub id : Text
  pub tenant_id : Text
  pub is_active : Bool

pub record AssignmentRow : Type 0 where
  pub account_id : Text
  pub tenant_id : Text
  pub branch_id : Text
  pub membership_id : Text
  pub is_active : Bool

pub data Enforcement : Type 0 where
  enabled read_only disabled_visible : Enforcement

pub record EntitlementRow : Type 0 where
  pub tenant_id : Text
  pub branch_id : Text
  pub entitlement_key : Text
  pub enforcement : Enforcement

pub record AuthSessionRow : Type 0 where
  pub id : Text
  pub account_id : Text
  pub is_revoked : Bool
  pub expires_at : ℕ

pub record AccessDb : Type 0 where
  pub tenants : List TenantRow
  pub subscriptions : List SubscriptionRow
  pub memberships : List MembershipRow
  pub branches : List BranchRow
  pub assignments : List AssignmentRow
  pub entitlements : List EntitlementRow
  pub auth_sessions : List AuthSessionRow

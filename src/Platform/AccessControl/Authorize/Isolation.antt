-- ===== src/Platform/AccessControl/Authorize/Isolation.antt =====
-- A decision reads the rows of its tenant only (platform/access-control/authorize.ts).
use modula_backend.Common.{
  ◌≡◌, refl, ◌∙◌, ap, ◌&&◌, Option, none, some, Text, ◌==◌, is_some, find_row, select,
  find_row-select, find_row_cong, arith,
}
use modula_backend.Platform.AccessControl.Types.{
  AccessControlScope, global, account, tenant, branch, AssignmentRow, ActionMetadata, AccessDb,
}
use modula_backend.Platform.AccessControl.DataAccess.{
  tenant_is_active, get_tenant_status, state_or_active, get_subscription_state, is_member,
  get_active_membership, branch_is_active, is_branch_of, get_branch_status, is_assignment,
  is_joined, has_active_branch_access, enforcement_or_enabled, is_entitlement,
  get_branch_entitlement_enforcement,
}
use modula_backend.Platform.AccessControl.Authorize.{
  authorize_tenant, authorize_branch, authorize_scope, evaluate_entitlement, evaluate_key, decide,
}

-- The rows of one tenant.
abbrev pub only : Text → AccessDb → AccessDb
only t db = record db {
  tenants = select (λ x. x.id == t) db.tenants;
  subscriptions = select (λ x. x.tenant_id == t) db.subscriptions;
  memberships = select (λ x. x.tenant_id == t) db.memberships;
  branches = select (λ x. x.tenant_id == t) db.branches;
  assignments = select (λ x. x.tenant_id == t) db.assignments;
  entitlements = select (λ x. x.tenant_id == t) db.entitlements;
}

module _ (t : Text) (db : AccessDb) where
  same_tenant_status : get_tenant_status t (only t db) ≡ get_tenant_status t db
  unfolding get_tenant_status
  same_tenant_status = ap tenant_is_active (find_row-select _ _ db.tenants λ x h. h)

  same_subscription : get_subscription_state t (only t db) ≡ get_subscription_state t db
  unfolding get_subscription_state
  same_subscription = ap state_or_active (find_row-select _ _ db.subscriptions λ x h. h)

  same_membership :
      (a : Text) → get_active_membership a t (only t db) ≡ get_active_membership a t db
  unfolding get_active_membership is_member
  same_membership a = find_row-select _ _ db.memberships λ x h. ground arith

  same_branch_status : (b : Text) → get_branch_status t b (only t db) ≡ get_branch_status t b db
  unfolding get_branch_status is_branch_of
  same_branch_status b = ap branch_is_active (find_row-select _ _ db.branches λ x h. ground arith)

  same_member :
      (a id : Text)
      → find_row (λ m. m.id == id && is_member a t m) (only t db).memberships
        ≡ find_row (λ m. m.id == id && is_member a t m) db.memberships
  unfolding is_member
  same_member a id = find_row-select _ _ db.memberships λ m h. ground arith

  same_branch :
      (id : Text)
      → find_row (λ b. b.id == id && b.tenant_id == t) (only t db).branches
        ≡ find_row (λ b. b.id == id && b.tenant_id == t) db.branches
  same_branch id = find_row-select _ _ db.branches λ b h. ground arith

  same_joined : (a : Text) (x : AssignmentRow) → is_joined a t (only t db) x ≡ is_joined a t db x
  unfolding is_joined
  same_joined a x = rw (same_member a x.membership_id, same_branch x.branch_id) refl

  same_assignment :
      (a b : Text)
      → find_row (λ x. is_assignment a t b x && is_joined a t (only t db) x) (only t db).assignments
        ≡ find_row (λ x. is_assignment a t b x && is_joined a t (only t db) x) db.assignments
  unfolding is_assignment
  same_assignment a b = find_row-select _ _ db.assignments λ x h. ground arith

  same_access :
      (a b : Text) → has_active_branch_access a t b (only t db) ≡ has_active_branch_access a t b db
  unfolding has_active_branch_access
  same_access a b = ap is_some (
      same_assignment a b
      ∙ find_row_cong _ _ db.assignments
          λ x. ap (λ c. is_assignment a t b x && c) (same_joined a x))

  same_enforcement :
      (b key : Text)
      → get_branch_entitlement_enforcement t b key (only t db)
        ≡ get_branch_entitlement_enforcement t b key db
  unfolding get_branch_entitlement_enforcement is_entitlement
  same_enforcement b key =
      ap enforcement_or_enabled (find_row-select _ _ db.entitlements λ x h. ground arith)

  same_key : (k b : Option Text) → evaluate_key k b t (only t db) ≡ evaluate_key k b t db
  same_key none b = refl
  same_key (some key) none = refl
  same_key (some key) (some b) = ap decide (same_enforcement b key)

  same_scope :
      (scope : AccessControlScope) (action : ActionMetadata) (a : Text) (found : Option Text)
      → authorize_scope scope action a t found (only t db)
        ≡ authorize_scope scope action a t found db
  unfolding authorize_branch evaluate_entitlement
  same_scope branch action a none = refl
  same_scope branch action a (some b) =
      rw (same_branch_status b, same_access a b, same_key action.entitlement_key (some b)) refl
  same_scope global action a found = rw (same_key action.entitlement_key none) refl
  same_scope account action a found = rw (same_key action.entitlement_key none) refl
  same_scope tenant action a found = rw (same_key action.entitlement_key none) refl

  -- A decision about a tenant is the same where the tables hold the rows of that tenant only: rows of
  -- other tenants neither grant nor deny anything.
  pub authorize_tenant_isolated :
      (action : ActionMetadata) (action_key account_id : Text) (found : Option Text)
      → authorize_tenant action action_key account_id t found (only t db)
        ≡ authorize_tenant action action_key account_id t found db
  unfolding authorize_tenant
  authorize_tenant_isolated action action_key account_id found =
      rw
        (
          same_subscription,
          same_tenant_status,
          same_membership account_id,
          same_scope action.scope action account_id found,
        )
        refl

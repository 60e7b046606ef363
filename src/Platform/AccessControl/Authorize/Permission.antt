-- ===== src/Platform/AccessControl/Authorize/Permission.antt =====
-- What a permission means (platform/access-control/authorize.ts).
use modula_backend.Common.{
  ok-ne-err, sym, ◌≡◌, ◌↔◌, refl, true, false, ◌&&◌, Option, none, some, Text, is_some, ok, arith,
  Option-cases, inl, inr,
}
use modula_backend.Platform.AccessControl.Types.{
  AccessControlScope, global, account, tenant, branch, AccessControlEffect, is_write,
  ActionMetadata, MembershipRow, AccessDb,
}
use modula_backend.Platform.AccessControl.DataAccess.{
  get_tenant_status, get_subscription_state, get_active_membership, get_branch_status,
  has_active_branch_access,
}
use modula_backend.Platform.AccessControl.Authorize.{
  authorize_tenant, authorize_branch, authorize_scope, check_entitlement, is_past_due, is_frozen,
  is_upgrade_only, role_may_act, evaluate_entitlement, is_blocked, is_reads_only,
  EntitlementDecision,
}

-- An entitlement lets an effect through.
pub record Lets (effect : AccessControlEffect) (e : EntitlementDecision) : Type 0 where
  pub unblocked : is_blocked e ≡ false
  pub writable : is_write effect ≡ true → is_reads_only e ≡ false

check_entitlement-Lets :
    (effect : AccessControlEffect) (e : EntitlementDecision)
    → (check_entitlement effect e ≡ ok tt) ↔ Lets effect e
unfolding check_entitlement
check_entitlement-Lets effect e = (
  λ h. record { unblocked = ground arith; writable = λ w. ground arith },
  λ l. let u = l.unblocked in let w = l.writable in ground (arith),
)

module _ (action : ActionMetadata) (account_id tenant_id : Text) (db : AccessDb) where
  -- The account may act in the branch.
  pub record GrantedIn (b : Text) : Type 0 where
    pub assigned : has_active_branch_access account_id tenant_id b db ≡ true
    pub known : is_some (get_branch_status tenant_id b db) ≡ true
    pub live : is_write action.effect ≡ true → get_branch_status tenant_id b db ≡ some true
    pub entitled : Lets action.effect (evaluate_entitlement action tenant_id (some b) db)

  abbrev pub GrantedScope : AccessControlScope → Option Text → Type 0
  GrantedScope branch found = (b : Text) × (found ≡ some b) × GrantedIn b
  GrantedScope _ found = Lets action.effect (evaluate_entitlement action tenant_id none db)

  authorize_branch-GrantedIn :
      (b : Text) → authorize_branch action account_id tenant_id (some b) db ≡ ok tt → GrantedIn b
  unfolding authorize_branch
  authorize_branch-GrantedIn b h = record {
    assigned = ground arith;
    known = ground arith;
    live = λ w. ground arith;
    entitled =
        (check_entitlement-Lets action.effect (evaluate_entitlement action tenant_id (some b) db)).0
          (ground arith);
  }

  GrantedIn-authorize_branch :
      (b : Text) → GrantedIn b → authorize_branch action account_id tenant_id (some b) db ≡ ok tt
  unfolding authorize_branch
  GrantedIn-authorize_branch b g = ground (
    arith,
    g.assigned,
    g.known,
    g.live,
    (check_entitlement-Lets action.effect (evaluate_entitlement action tenant_id (some b) db)).1
        g.entitled,
  )

  authorize_scope-GrantedScope :
      (scope : AccessControlScope) (found : Option Text)
      → authorize_scope scope action account_id tenant_id found db ≡ ok tt
      → GrantedScope scope found
  unfolding authorize_branch
  authorize_scope-GrantedScope branch (some b) h = (b, refl, authorize_branch-GrantedIn b h)
  authorize_scope-GrantedScope branch none h = absurd (ok-ne-err (sym h))
  authorize_scope-GrantedScope global found h = (check_entitlement-Lets _ _).0 h
  authorize_scope-GrantedScope account found h = (check_entitlement-Lets _ _).0 h
  authorize_scope-GrantedScope tenant found h = (check_entitlement-Lets _ _).0 h

  GrantedScope-authorize_scope :
      (scope : AccessControlScope) (found : Option Text)
      → GrantedScope scope found
      → authorize_scope scope action account_id tenant_id found db ≡ ok tt
  GrantedScope-authorize_scope branch found (b, same, g) = rw same (GrantedIn-authorize_branch b g)
  GrantedScope-authorize_scope global found l = (check_entitlement-Lets _ _).1 l
  GrantedScope-authorize_scope account found l = (check_entitlement-Lets _ _).1 l
  GrantedScope-authorize_scope tenant found l = (check_entitlement-Lets _ _).1 l

  module _ (action_key : Text) (found : Option Text) where
    -- The account may take the action: it is an active member of a known tenant in a role that may
    -- act; what writes also needs an active tenant whose subscription is neither frozen nor, for an
    -- upgrade, past due; and the scope of the action is granted.
    pub record Granted : Type 0 where
      pub membership : MembershipRow
      pub member : get_active_membership account_id tenant_id db ≡ some membership
      pub role : role_may_act action.allowed_roles membership ≡ true
      pub tenant_known : is_some (get_tenant_status tenant_id db) ≡ true
      pub tenant_live : is_write action.effect ≡ true → get_tenant_status tenant_id db ≡ some true
      pub unfrozen :
          is_write action.effect ≡ true → is_frozen (get_subscription_state tenant_id db) ≡ false
      pub paid :
          is_write action.effect ≡ true
          → (is_past_due (get_subscription_state tenant_id db) && is_upgrade_only action_key)
            ≡ false
      pub scoped : GrantedScope action.scope found

    authorize_tenant-Granted :
        authorize_tenant action action_key account_id tenant_id found db ≡ ok tt → Granted
    unfolding authorize_tenant
    authorize_tenant-Granted h =
        elim (Option-cases (get_active_membership account_id tenant_id db)) [
          | inl missing ↦ absurd (ground arith)
          | inr (m, is_member) ↦ record {
            membership = m;
            member = is_member;
            role = ground arith;
            tenant_known = ground arith;
            tenant_live = λ w. ground arith;
            unfrozen = λ w. ground arith;
            paid = λ w. ground arith;
            scoped = authorize_scope-GrantedScope action.scope found (ground arith);
          }
        ]

    Granted-authorize_tenant :
        Granted → authorize_tenant action action_key account_id tenant_id found db ≡ ok tt
    unfolding authorize_tenant
    Granted-authorize_tenant g = ground (
      arith,
      g.member,
      g.role,
      g.tenant_known,
      g.tenant_live,
      g.unfrozen,
      g.paid,
      GrantedScope-authorize_scope action.scope found g.scoped,
    )

    -- The part of a request's authorization that follows the tenant's resolution allows exactly what
    -- is granted.
    pub authorize_tenant-iff-Granted :
        (authorize_tenant action action_key account_id tenant_id found db ≡ ok tt) ↔ Granted
    authorize_tenant-iff-Granted = (authorize_tenant-Granted, Granted-authorize_tenant)

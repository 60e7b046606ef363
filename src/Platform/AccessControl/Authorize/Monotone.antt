-- ===== src/Platform/AccessControl/Authorize/Monotone.antt =====
-- Reading needs no more than writing (platform/access-control/authorize.ts).
use modula_backend.Common.{◌≡◌, Option, Text, ok}
use modula_backend.Platform.AccessControl.Types.{
  AccessControlScope, global, account, tenant, branch, AccessControlEffect, read, ActionMetadata,
  AccessDb,
}
use modula_backend.Platform.AccessControl.Authorize.{
  authorize_tenant, evaluate_entitlement, EntitlementDecision,
}
use modula_backend.Platform.AccessControl.Authorize.Permission.{
  Lets, GrantedScope, authorize_tenant-iff-Granted,
}

abbrev pub as_read : ActionMetadata → ActionMetadata
as_read action = record action { effect = read }

read-Lets : (effect : AccessControlEffect) (e : EntitlementDecision) → Lets effect e → Lets read e
read-Lets effect e l = record { unblocked = l.unblocked; writable = λ w. cc }

module _ (action : ActionMetadata) (account_id tenant_id : Text) (db : AccessDb) where
  read_scope :
      (scope : AccessControlScope) (found : Option Text)
      → GrantedScope action account_id tenant_id db scope found
      → GrantedScope (as_read action) account_id tenant_id db scope found
  unfolding evaluate_entitlement
  read_scope branch found (b, same, g) = (
    b,
    same,
    record {
      assigned = g.assigned;
      known = g.known;
      live = λ w. cc;
      entitled = read-Lets _ _ g.entitled;
    },
  )
  read_scope global found l = read-Lets _ _ l
  read_scope account found l = read-Lets _ _ l
  read_scope tenant found l = read-Lets _ _ l

  -- An action that is allowed is also allowed to the same account if it only reads.
  pub authorize_tenant-as_read :
      (action_key : Text) (found : Option Text)
      → authorize_tenant action action_key account_id tenant_id found db ≡ ok tt
      → authorize_tenant (as_read action) action_key account_id tenant_id found db ≡ ok tt
  authorize_tenant-as_read action_key found h =
      let g = (authorize_tenant-iff-Granted action account_id tenant_id db action_key found).0 h in
      (authorize_tenant-iff-Granted (as_read action) account_id tenant_id db action_key found).1
        (record {
          membership = g.membership;
          member = g.member;
          role = g.role;
          tenant_known = g.tenant_known;
          tenant_live = λ w. cc;
          unfrozen = λ w. cc;
          paid = λ w. cc;
          scoped = read_scope action.scope found g.scoped;
        })

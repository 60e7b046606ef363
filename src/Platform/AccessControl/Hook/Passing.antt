-- ===== src/Platform/AccessControl/Hook/Passing.antt =====
-- The requests that the hook passes on (platform/http/middleware/access-control-hook.ts).
use modula_backend.Common.{
  ℕ, ◌≡◌, refl, ◌⊎◌, ◌↔◌, inl, inr, true, false, Option, some, List, Text, is_empty, ok, arith,
  Bool-cases, Option-cases,
}
use modula_backend.Platform.AccessControl.Types.{
  ProtectedRoute, ActionMetadata, V0Claims, Request, AccessDb,
}
use modula_backend.Platform.AccessControl.DataAccess.{has_active_auth_session}
use modula_backend.Platform.AccessControl.Authorize.{authorize_route}
use modula_backend.Platform.AccessControl.Hook.{
  is_open_route, match_protected_route, get_claims_from_request, trimmed_or_empty, check_protected,
  access_control_hook,
}

module _ (catalog : Text → Option ActionMetadata) (routes : List ProtectedRoute)
    (verify : Text → Option V0Claims) (req : Request) (now : ℕ) (db : AccessDb) where
  -- The request names a registered route, its token gives an account and claims, their session is
  -- active, and the route is authorized for them.
  pub record Authorized : Type 0 where
    pub route : ProtectedRoute
    pub account_id : Text
    pub claims : V0Claims
    pub registered : match_protected_route routes req.method req.path ≡ some route
    pub authentic : get_claims_from_request verify req ≡ some (account_id, claims)
    pub in_session : is_empty (trimmed_or_empty claims.sid) ≡ false
    pub active : has_active_auth_session account_id (trimmed_or_empty claims.sid) now db ≡ true
    pub authorized : authorize_route catalog route req account_id claims db ≡ ok tt

  check_protected-Authorized : check_protected catalog routes verify req now db ≡ ok tt → Authorized
  unfolding check_protected
  check_protected-Authorized h =
      elim (Option-cases (match_protected_route routes req.method req.path)) [
        | inl missing ↦ absurd (ground arith)
        | inr (route, found) ↦ elim (Option-cases (get_claims_from_request verify req)) [
          | inl invalid ↦ absurd (ground arith)
          | inr ((account_id, claims), valid) ↦ record {
            route = route;
            account_id = account_id;
            claims = claims;
            registered = found;
            authentic = valid;
            in_session = ground arith;
            active = ground arith;
            authorized = ground arith;
          }
        ]
      ]

  Authorized-check_protected : Authorized → check_protected catalog routes verify req now db ≡ ok tt
  unfolding check_protected
  Authorized-check_protected a =
      ground (arith, a.registered, a.authentic, a.in_session, a.active, a.authorized)

  -- The hook passes a request on exactly if its route is open or the request is authorized.
  pub access_control_hook_passes :
      (access_control_hook catalog routes verify req now db ≡ ok tt)
      ↔ ((is_open_route req.method req.path ≡ true) ⊎ Authorized)
  unfolding access_control_hook
  access_control_hook_passes = (
    λ h. elim (Bool-cases (is_open_route req.method req.path)) [
      | inl opened ↦ inl opened
      | inr protected ↦ inr (check_protected-Authorized (rw protected at h))
    ],
    λ p. elim p [
      | inl opened ↦ rw opened refl
      | inr a ↦ elim (Bool-cases (is_open_route req.method req.path)) [
        | inl opened ↦ rw opened refl
        | inr protected ↦ rw protected (Authorized-check_protected a)
      ]
    ],
  )

-- ===== src/Platform/AccessControl/Hook.antt =====
-- The hook before every route (platform/http/middleware/access-control-hook.ts), with claims.ts,
-- open-routes.ts and the search of route-registry.ts. The registry is an argument, and so is the
-- verification of a token by the jsonwebtoken package. `ok` stands for the call of `next`.
pub mod Passing
use modula_backend.Common.{
  ℕ, Bool, true, false, not, ◌&&◌, ◌||◌, Option, none, some, List, [], ◌∷◌, Text, codes, ◌==◌,
  is_empty, is_some, trim, find_row, if◌then◌else◌, Result, ok, err, or_error, error_if,
}
use modula_backend.Common.Steps.{◌>>=◌, ◌>>◌}
use modula_backend.Platform.AccessControl.Types.{
  ProtectedRoute, ActionMetadata, V0Claims, Request, AccessDb,
}
use modula_backend.Platform.AccessControl.DataAccess.{has_active_auth_session}
use modula_backend.Platform.AccessControl.Context.{strip_prefix}
use modula_backend.Platform.AccessControl.Authorize.{
  Denial, deny, access_control_route_not_registered, invalid_access_token, authorize_route,
}

pub record OpenRoute : Type 0 where
  pub method : Text
  pub path : Text

abbrev post : Text → OpenRoute
post path = record { method = codes "POST"; path = path }

abbrev pub open_routes : List OpenRoute
open_routes =
    post (codes "/auth/register")
    ∷ post (codes "/auth/otp/send")
    ∷ post (codes "/auth/otp/verify")
    ∷ post (codes "/auth/password-reset/request")
    ∷ post (codes "/auth/password-reset/confirm")
    ∷ post (codes "/auth/login")
    ∷ post (codes "/auth/refresh")
    ∷ post (codes "/auth/logout")
    ∷ post (codes "/payments/khqr/webhooks/provider")
    ∷ record { method = codes "GET"; path = codes "/health" }
    ∷ []

unfoldable pub is_open_route : Text → Text → Bool
is_open_route method path =
    method == codes "OPTIONS"
    || is_some (find_row (λ r. r.method == method && r.path == path) open_routes)

unfoldable pub match_protected_route : List ProtectedRoute → Text → Text → Option ProtectedRoute
match_protected_route routes method path =
    find_row (λ r. r.method == method && r.pattern path) routes

-- The account of decoded claims that are accepted.
abbrev pub accepted_claims : Option V0Claims → Option (Text × V0Claims)
accepted_claims none = none
accepted_claims (some c) = elim c.scope [
  | none ↦ none
  | some scope ↦ elim c.account_id [
    | none ↦ none
    | some account_id ↦ if scope == codes "v0" then some (account_id, c) else none
  ]
]

abbrev pub verified : (Text → Option V0Claims) → Text → Option (Text × V0Claims)
verified verify token = if is_empty token then none else accepted_claims (verify token)

abbrev pub claims_of_header : (Text → Option V0Claims) → Option Text → Option (Text × V0Claims)
claims_of_header verify none = none
claims_of_header verify (some header) = elim (strip_prefix (codes "Bearer ") header) [
  | none ↦ none
  | some token ↦ verified verify (trim token)
]

unfoldable pub get_claims_from_request :
    (Text → Option V0Claims) → Request → Option (Text × V0Claims)
unfolding strip_prefix
get_claims_from_request verify req = claims_of_header verify req.authorization

abbrev pub trimmed_or_empty : Option Text → Text
trimmed_or_empty none = []
trimmed_or_empty (some t) = trim t

unfoldable pub check_protected :
    (Text → Option ActionMetadata)
    → List ProtectedRoute
    → (Text → Option V0Claims)
    → Request
    → ℕ
    → AccessDb
    → Result Denial (Unit {0})
check_protected catalog routes verify req now db = do
  route ←
      or_error (match_protected_route routes req.method req.path)
        (deny 403 access_control_route_not_registered)
  (account_id, claims) ←
      or_error (get_claims_from_request verify req) (deny 401 invalid_access_token)
  let session_id = trimmed_or_empty claims.sid
  error_if (is_empty session_id) (deny 401 invalid_access_token)
  error_if (not (has_active_auth_session account_id session_id now db))
      (deny 401 invalid_access_token)
  authorize_route catalog route req account_id claims db

unfoldable pub access_control_hook :
    (Text → Option ActionMetadata)
    → List ProtectedRoute
    → (Text → Option V0Claims)
    → Request
    → ℕ
    → AccessDb
    → Result Denial (Unit {0})
access_control_hook catalog routes verify req now db =
    if is_open_route req.method req.path
    then ok tt
    else check_protected catalog routes verify req now db

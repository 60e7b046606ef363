-- ===== src/Platform/AccessControl/Context.antt =====
-- The tenant and the branch that a request is about (platform/access-control/context-resolvers.ts).
use modula_backend.Common.{
  ◌||◌, Option, none, some, [], ◌∷◌, Text, codes, ◌==◌, eqb, is_empty, trim, find_row,
  if◌then◌else◌,
}
use modula_backend.Platform.AccessControl.Types.{
  TenantSource, token_tenant, body_tenant_id, path_membership_id, BranchSource, token_branch,
  body_branch_id, path_branch_id, ProtectedRoute, V0Claims, Request, MembershipRow, AccessDb,
}

unfoldable pub normalize_id : Option Text → Option Text
normalize_id none = none
normalize_id (some t) =
    let normalized = trim t in if is_empty normalized then none else some normalized

-- What follows a prefix.
unfoldable pub strip_prefix : Text → Text → Option Text
strip_prefix [] s = some s
strip_prefix (c ∷ p) [] = none
strip_prefix (c ∷ p) (d ∷ s) = let rest = strip_prefix p s in if eqb c d then rest else none

-- A longest run without "/", and what follows it.
unfoldable pub segment : Text → Text × Text
segment [] = ([], [])
segment (c ∷ s) = let rest = segment s in if eqb c 47 then ([], c ∷ s) else (c ∷ rest.0, rest.1)

abbrev pub non_empty : Text → Option Text
non_empty s = if is_empty s then none else some s

-- `([^/]+)` after a prefix.
unfoldable pub segment_after : Text → Text → Option Text
unfolding strip_prefix segment
segment_after prefix path = elim (strip_prefix prefix path) [
  | none ↦ none
  | some rest ↦ non_empty (segment rest).0
]

abbrev pub first_some : Option Text → Option Text → Option Text
first_some none b = b
first_some (some a) b = some a

unfoldable pub extract_membership_id : Text → Option Text
unfolding segment_after normalize_id
extract_membership_id path = normalize_id (
    first_some (segment_after (codes "/auth/memberships/") path) (
      first_some (segment_after (codes "/org/memberships/") path)
        (segment_after (codes "/hr/staff/memberships/") path)))

-- /^\/org\/branches\/([^/]+)\/profile\/?$/
abbrev pub before_profile : Text × Text → Option Text
before_profile (id, rest) =
    if rest == codes "/profile" || rest == codes "/profile/" then non_empty id else none

unfoldable pub extract_branch_id : Text → Option Text
unfolding strip_prefix segment normalize_id
extract_branch_id path = elim (strip_prefix (codes "/org/branches/") path) [
  | none ↦ none
  | some rest ↦ normalize_id (before_profile (segment rest))
]

abbrev pub tenant_of_row : Option MembershipRow → Option Text
tenant_of_row none = none
tenant_of_row (some m) = normalize_id (some m.tenant_id)

abbrev pub tenant_of_membership : Option Text → AccessDb → Option Text
tenant_of_membership none db = none
tenant_of_membership (some id) db = tenant_of_row (find_row (λ m. m.id == id) db.memberships)

abbrev pub tenant_from : Option TenantSource → Request → V0Claims → AccessDb → Option Text
tenant_from none req claims db = none
tenant_from (some token_tenant) req claims db = normalize_id claims.tenant_id
tenant_from (some body_tenant_id) req claims db = normalize_id req.body_tenant_id
tenant_from (some path_membership_id) req claims db =
    tenant_of_membership (extract_membership_id req.path) db

unfoldable pub resolve_tenant_id : ProtectedRoute → Request → V0Claims → AccessDb → Option Text
resolve_tenant_id route req claims db = tenant_from route.tenant_source req claims db

abbrev pub branch_from : Option BranchSource → Request → V0Claims → Option Text
branch_from none req claims = none
branch_from (some token_branch) req claims = normalize_id claims.branch_id
branch_from (some body_branch_id) req claims = normalize_id req.body_branch_id
branch_from (some path_branch_id) req claims = extract_branch_id req.path

unfoldable pub resolve_branch_id : ProtectedRoute → Request → V0Claims → Option Text
resolve_branch_id route req claims = branch_from route.branch_source req claims

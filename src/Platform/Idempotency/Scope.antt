-- ===== src/Platform/Idempotency/Scope.antt =====
-- The scope fingerprint of a command (`buildScopeFingerprint` in platform/idempotency/service.ts).
use modula_backend.Common.{◌≡◌, refl, ◌≢◌, ap, Option, none, some, [], ◌∷◌, ◌++◌, Text, codes, All}
use modula_backend.Platform.Idempotency.Service.{build_scope_fingerprint}

-- Tenant ids are UUIDs, which hold no colon.
abbrev pub HasNoColon : Text → Type 0
HasNoColon = All (λ c. c ≢ 58)

split_at_colons :
    (t t' x y : Text)
    → HasNoColon t
    → HasNoColon t'
    → t ++ (codes "::" ++ x) ≡ t' ++ (codes "::" ++ y)
    → (t ≡ t') × (x ≡ y)
split_at_colons [] [] x y h h' e = (refl, cc)
split_at_colons [] (c ∷ t') x y h h' e = absurd (h'.0 (cc))
split_at_colons (c ∷ t) [] x y h h' e = absurd (h.0 (cc))
split_at_colons (c ∷ t) (d ∷ t') x y h h' e =
    let (p, q) = split_at_colons t t' x y h.1 h'.1 (cc) in (cc, q)

-- Two scopes with the same fingerprint are the same scope, for tenant ids without a colon and branch
-- ids other than the placeholder "-".
pub build_scope_fingerprint-injective :
    (t t' : Text) (b b' : Option Text)
    → HasNoColon t
    → HasNoColon t'
    → b ≢ some (codes "-")
    → b' ≢ some (codes "-")
    → build_scope_fingerprint t b ≡ build_scope_fingerprint t' b'
    → (t ≡ t') × (b ≡ b')
unfolding build_scope_fingerprint
build_scope_fingerprint-injective t t' none none h h' n n' e =
    ((split_at_colons t t' (codes "-") (codes "-") h h' e).0, refl)
build_scope_fingerprint-injective t t' none (some b') h h' n n' e =
    absurd (n' (cc (split_at_colons t t' (codes "-") b' h h' e).1))
build_scope_fingerprint-injective t t' (some b) none h h' n n' e =
    absurd (n (cc (split_at_colons t t' b (codes "-") h h' e).1))
build_scope_fingerprint-injective t t' (some b) (some b') h h' n n' e =
    let (p, q) = split_at_colons t t' b b' h h' e in (p, ap some q)

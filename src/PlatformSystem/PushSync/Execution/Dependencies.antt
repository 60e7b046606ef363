-- ===== src/PlatformSystem/PushSync/Execution/Dependencies.antt =====
-- When the dependencies of an operation hold, and what becomes of it where they do not
-- (`resolveDependencyFailure` of pushSync/api/router.ts).
use modula_backend.Common.{
  ◌++◌, codes, true, ◌≡◌, ◌≢◌, ◌↔◌, ◌⊎◌, refl, Option, none, some, List, [], ◌∷◌, Text, Bool-cases,
  inl, inr, All,
}
use modula_backend.PlatformSystem.PushSync.Rows.{
  OperationRow, SyncDb, ReplayResult, ReplayStatus, was_applied, was_duplicate, has_failed,
  OperationStatus, in_progress, applied, duplicate, failed,
}
use modula_backend.PlatformSystem.PushSync.Repository.{find_operation_by_identity}
use modula_backend.PlatformSystem.PushSync.Execution.{
  Prior, prior_of, check_dependency, first_message, resolve_dependency_failure, is_settled_well,
  succeeded,
}

-- The operation before it in the request has succeeded; or there is none, and its row was applied.
pub data Met {P W : Type 0} (tenant branch : Text) (prior : Prior) (db : SyncDb P W) (d : Text)
    : Type 0 where
  in_request :
      (k : Text) (r : ReplayResult)
      → prior_of d prior ≡ some (k, r)
      → r.status ≢ has_failed
      → Met tenant branch prior db d
  before_request :
      (row : OperationRow P)
      → prior_of d prior ≡ none
      → find_operation_by_identity tenant branch d db ≡ some row
      → (row.status ≡ applied) ⊎ (row.status ≡ duplicate)
      → Met tenant branch prior db d

first_none : (a b : Option Text) → first_message a b ≡ none → (a ≡ none) × (b ≡ none)
first_none none b h = (refl, h)
first_none (some m) b h = cc

settled_cases :
    (st : OperationStatus) → is_settled_well st ≡ true → (st ≡ applied) ⊎ (st ≡ duplicate)
settled_cases applied h = inl refl
settled_cases duplicate h = inr refl
settled_cases in_progress h = cc
settled_cases failed h = cc

settled_well :
    (st : OperationStatus) → (st ≡ applied) ⊎ (st ≡ duplicate) → is_settled_well st ≡ true
settled_well st (inl h) = rw h refl
settled_well st (inr h) = rw h refl

succeeded_iff : (st : ReplayStatus) → (succeeded st ≡ true) ↔ (st ≢ has_failed)
succeeded_iff was_applied = (λ h e. cc, λ h. refl)
succeeded_iff was_duplicate = (λ h e. cc, λ h. refl)
succeeded_iff has_failed = (λ h e. cc, λ h. absurd (h refl))

module _ {P W : Type 0} (tenant branch : Text) (prior : Prior) (db : SyncDb P W) where
  check_Met :
      (d : Text) (o : Option (Text × ReplayResult)) (found : Option (OperationRow P))
      → prior_of d prior ≡ o
      → find_operation_by_identity tenant branch d db ≡ found
      → check_dependency d o found ≡ none
      → Met tenant branch prior db d
  check_Met d (some (k, r)) found p f h = elim (Bool-cases (succeeded r.status)) [
    | inl won ↦ in_request k r p ((succeeded_iff r.status).0 won)
    | inr lost ↦
        let e : some (codes "dependency " ++ (d ++ codes " was not applied")) ≡ none =
          (rw lost at h) in
        cc
  ]
  check_Met d none none p f h = cc
  check_Met d none (some row) p f h = elim (Bool-cases (is_settled_well row.status)) [
    | inl won ↦ before_request row p f (settled_cases row.status won)
    | inr lost ↦
        let e : some (codes "dependency " ++ (d ++ codes " was not found as applied")) ≡ none =
          (rw lost at h) in
        cc
  ]

  Met-check_dependency :
      (d : Text)
      → Met tenant branch prior db d
      → check_dependency d (prior_of d prior) (find_operation_by_identity tenant branch d db) ≡ none
  Met-check_dependency d (in_request k r p won) = rw p (rw ((succeeded_iff r.status).1 won) refl)
  Met-check_dependency d (before_request row p f won) =
      rw (p, f) (rw (settled_well row.status won) refl)

  -- No dependency is reported exactly when each one holds: its result earlier in the request is no failure,
  -- or it has none there and its row is APPLIED or DUPLICATE.
  pub resolve_dependency_failure_iff :
      (ds : List Text)
      → (resolve_dependency_failure tenant branch prior db ds ≡ none)
        ↔ All (Met tenant branch prior db) ds
  unfolding resolve_dependency_failure
  resolve_dependency_failure_iff [] = (λ _. tt, λ _. refl)
  resolve_dependency_failure_iff (d ∷ ds) =
      let ih = resolve_dependency_failure_iff ds in
      (
        (λ h.
            let (a, b) = first_none _ _ h in
            (
              check_Met d (prior_of d prior) (find_operation_by_identity tenant branch d db) refl
                  refl a,
              ih.0 b,
            )),
        (λ h. rw (Met-check_dependency d h.0) (ih.1 h.1)),
      )

-- ===== src/PlatformSystem/PushSync/History.antt =====
-- The history of the operation rows over the transactions of many requests (pushSync/infra/repository.ts and
-- api/router.ts): the ids stay unique and a settled row stays what it is.
pub mod Evolves
pub mod Statements
pub mod Owned
pub mod Transaction
pub mod Requests
pub mod Answers
pub mod Once
pub mod Committed
use modula_backend.Common.{
  ℕ, suc, ◌<◌, ◌≤◌, Bool, true, false, not, ◌&&◌, ◌≡◌, ◌≢◌, refl, sym, ap, ◌∙◌, Option, none, some,
  List, [], ◌∷◌, Text, ◌==◌, eqb, if◌then◌else◌, Result, ok, err, Bool-cases, Option-cases, inl,
  inr, arith, find_row, find_row_here, find_row_skip, find_row_holds, find_row_updated, update_rows,
}
use modula_backend.Platform.Transactions.{with_transaction, commit_or_rollback}
use modula_backend.PlatformSystem.PushSync.Rows.{
  OperationRow, SyncDb, Clock, ActorScope, ReplayOperation, ReplayResult,
}
use modula_backend.PlatformSystem.PushSync.Repository.{
  Started, Completion, BatchInput, FinalizeInput, create_batch, finalize_batch, has_identity,
  find_operation_by_identity, try_start_operation, complete_operation, start_found, start_existing,
  reclaim_expired, after_reclaim, is_in_progress, expired, returning, may_reclaim, reclaim_row,
  may_complete, complete_row, new_operation,
}
use modula_backend.PlatformSystem.PushSync.Execution.{
  Apply, Prior, ApplyOutcome, SyncFailure, execute_operation, after_start, after_dependencies,
  after_apply, finish, completed_result, completion_of, resolve_dependency_failure,
}
use modula_backend.PlatformSystem.PushSync.Replay.{Run, run_operation}

-- The rows stand with the latest id first, below `n`.
abbrev pub Descending : {P : Type 0} → ℕ → List (OperationRow P) → Type 0
Descending n [] = Unit
Descending n (r ∷ rows) = (r.id < n) × Descending r.id rows

module _ {P : Type 0} where
  raise : (m n : ℕ) (rows : List (OperationRow P)) → m ≤ n → Descending m rows → Descending n rows
  raise m n [] h d = tt
  raise m n (r ∷ rows) h d = (omega (arith, h, d.0), d.1)

  update_rows-Descending :
      (q : OperationRow P → Bool) (f : OperationRow P → OperationRow P)
      → ((r : OperationRow P) → (f r).id ≡ r.id)
      → (n : ℕ) (rows : List (OperationRow P)) → Descending n rows
      → Descending n (update_rows q f rows)
  update_rows-Descending q f same n [] d = tt
  update_rows-Descending q f same n (r ∷ rows) d = elim (Bool-cases (q r)) [
    | inl picked ↦
        rw picked ((rw (same r) d.0), (rw (same r) (update_rows-Descending q f same r.id rows d.1)))
    | inr passed ↦ rw passed (d.0, update_rows-Descending q f same r.id rows d.1)
  ]

  found_below :
      (p : OperationRow P → Bool) (n : ℕ) (rows : List (OperationRow P)) (r : OperationRow P)
      → Descending n rows
      → find_row p rows ≡ some r
      → r.id < n
  found_below p n [] r d h = cc
  found_below p n (x ∷ rows) r d h = elim (Bool-cases (p x)) [
    | inl here ↦
        let e : ◌≡◌ {A = Option (OperationRow P)} (some x) (some r) =
          sym (find_row_here p x rows here) ∙ h in
        let same : x ≡ r = cc in omega (arith, d.0, ap (λ y. y.id) same)
    | inr skip ↦
        omega (arith, d.0, found_below p x.id rows r d.1 (sym (find_row_skip p x rows skip) ∙ h))
  ]

  -- Two queries that find rows with the same id have found the same row.
  pub found_once :
      (p q : OperationRow P → Bool) (n : ℕ) (rows : List (OperationRow P)) (r s : OperationRow P)
      → Descending n rows
      → find_row p rows ≡ some r
      → find_row q rows ≡ some s
      → r.id ≡ s.id
      → r ≡ s
  found_once p q n [] r s d h k e = cc
  found_once p q n (x ∷ rows) r s d h k e = elim (Bool-cases (p x)) [
    | inl here ↦
        let er : ◌≡◌ {A = Option (OperationRow P)} (some x) (some r) =
          sym (find_row_here p x rows here) ∙ h in
        let same : x ≡ r = cc in
        elim (Bool-cases (q x)) [
          | inl here' ↦
              let es : ◌≡◌ {A = Option (OperationRow P)} (some x) (some s) =
                sym (find_row_here q x rows here') ∙ k in
              cc
          | inr skip' ↦
              let low = found_below q x.id rows s d.1 (sym (find_row_skip q x rows skip') ∙ k) in
              let no_loop : x.id < x.id = omega (arith, low, e, ap (λ y. y.id) same) in
              absurd (omega (arith, no_loop))
        ]
    | inr skip ↦
        let lower = sym (find_row_skip p x rows skip) ∙ h in
        elim (Bool-cases (q x)) [
          | inl here' ↦
              let es : ◌≡◌ {A = Option (OperationRow P)} (some x) (some s) =
                sym (find_row_here q x rows here') ∙ k in
              let same : x ≡ s = cc in
              let low = found_below p x.id rows r d.1 lower in
              let no_loop : x.id < x.id = omega (arith, low, e, ap (λ y. y.id) same) in
              absurd (omega (arith, no_loop))
          | inr skip' ↦
              found_once p q x.id rows r s d.1 lower (sym (find_row_skip q x rows skip') ∙ k) e
        ]
  ]

-- ===== src/Platform/Transactions.antt =====
-- `withTransaction` of platform/db/transactionManager.ts: what a callback wrote is undone where it throws.
-- The log and the metrics are left out.
use modula_backend.Common.{◌≡◌, refl, Result, ok, err, Action, ok-ne-err}
use modula_backend.Common.Chain.{Atomic, Preserves}

abbrev pub commit_or_rollback : {S E A : Type 0} → S → Result E A × S → Result E A × S
commit_or_rollback before (ok a, after) = (ok a, after)
commit_or_rollback before (err e, after) = (err e, before)

unfoldable pub with_transaction : {S E A : Type 0} → Action S E A → Action S E A
with_transaction callback db = commit_or_rollback db (callback db)

module _ {S E A : Type 0} where
  rolled_back :
      (before : S) (o : Result E A × S) (e : E)
      → (commit_or_rollback before o).0 ≡ err e
      → (commit_or_rollback before o).1 ≡ before
  rolled_back before (ok a, after) e h = absurd (ok-ne-err h)
  rolled_back before (err e', after) e h = refl

  -- A transaction that throws leaves the state as it was, whatever its callback wrote.
  pub with_transaction-Atomic : (callback : Action S E A) → Atomic (with_transaction callback)
  unfolding with_transaction
  with_transaction-Atomic callback = record { keeps = λ db e h. rolled_back db (callback db) e h }

  ended_preserves :
      (P : S → Type 0) (before : S) (o : Result E A × S)
      → P before
      → ((a : A) → o.0 ≡ ok a → P o.1)
      → P (commit_or_rollback before o).1
  ended_preserves P before (ok a, after) v k = k a refl
  ended_preserves P before (err e, after) v k = v

  -- A transaction keeps an invariant, however it ends, if its callback keeps it where it returns.
  pub with_transaction-Preserves :
      (P : S → Type 0) (callback : Action S E A)
      → Preserves P callback
      → (before : S) → P before
      → P (with_transaction callback before).1
  unfolding with_transaction
  with_transaction-Preserves P callback p before v =
      ended_preserves P before (callback before) v (λ a h. p.preserves before a h v)

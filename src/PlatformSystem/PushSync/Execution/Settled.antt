-- ===== src/PlatformSystem/PushSync/Execution/Settled.antt =====
-- What an operation answers where its row is there already (pushSync/api/router.ts and
-- infra/repository.ts): nothing is applied and nothing is written.
use modula_backend.Common.{
  and_false, ℕ, false, ◌≡◌, refl, none, some, ◌==◌, if◌then◌else◌, ok, codes, Bool-cases, inl, inr,
  ◌⊎◌,
}
use modula_backend.PlatformSystem.PushSync.Rows.{
  OperationRow, SyncDb, Clock, ActorScope, ReplayOperation, ReplayResult,
}
use modula_backend.PlatformSystem.PushSync.Repository.{
  find_operation_by_identity, try_start_operation, start_existing, is_in_progress, expired,
}
use modula_backend.PlatformSystem.PushSync.Resolution.{
  map_existing_operation, failure, conflict_code,
}
use modula_backend.PlatformSystem.PushSync.Execution.{Apply, Prior, execute_operation}

-- A row that is not taken over: it is settled, its lease has not expired, or it is for another payload.
abbrev pub Held : {P : Type 0} → Clock → ReplayOperation P → OperationRow P → Type 0
Held clock op row =
    ((row.payload_hash == op.payload_hash) ≡ false)
    ⊎ (is_in_progress row.status ≡ false)
    ⊎ (expired clock.app_now row.lease_expires_at ≡ false)

-- What is answered from a row that is not taken over.
unfoldable pub answer_held : {P : Type 0} → ReplayOperation P → OperationRow P → ReplayResult
answer_held op row =
    if row.payload_hash == op.payload_hash
    then map_existing_operation op row
    else failure op.index op.client_op_id op.operation_type conflict_code
        (codes "clientOpId already used with different payload") none

module _ {P W : Type 0} (apply : Apply P W) (batch : ℕ) (actor : ActorScope)
    (op : ReplayOperation P) (lease : ℕ) (clock : Clock) (prior : Prior) (db : SyncDb P W) where
  -- An operation whose identity has a row that is settled, or that has an unexpired lease or another
  -- payload hash, is not applied: it is answered from the row, or with the payload conflict where the hashes differ, and
  -- every table and the rest of the database stay as they are.
  pub execute_operation-answer_held :
      (row : OperationRow P)
      → find_operation_by_identity actor.tenant_id actor.branch_id op.client_op_id db ≡ some row
      → Held clock op row
      → execute_operation apply batch actor op lease clock prior db ≡ (ok (answer_held op row), db)
  unfolding execute_operation try_start_operation start_existing answer_held
  execute_operation-answer_held row found (inl differs) = rw (found, differs) refl
  execute_operation-answer_held row found (inr (inl settled)) =
      elim (Bool-cases (row.payload_hash == op.payload_hash)) [
        | inr differs ↦ rw (found, differs) refl
        | inl same ↦ rw (found, same, settled) refl
      ]
  execute_operation-answer_held row found (inr (inr fresh)) =
      elim (Bool-cases (row.payload_hash == op.payload_hash)) [
        | inr differs ↦ rw (found, differs) refl
        | inl same ↦ rw (found, same, and_false (is_in_progress row.status) _ fresh) refl
      ]

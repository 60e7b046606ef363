-- ===== src/PlatformSystem/PushSync/Repository.antt =====
-- The statements of pushSync/infra/repository.ts, with the unique key of v0_offline_sync_operations.
use modula_backend.Common.{
  ℕ, suc, ◌+◌, Bool, true, false, not, ◌&&◌, Option, none, some, ◌∷◌, Text, ◌==◌, eqb, leb,
  if◌then◌else◌, find_row, update_rows,
}
use modula_backend.PlatformSystem.PushSync.Rows.{
  OperationStatus, in_progress, OperationRow, BatchStatus, batch_in_progress, BatchRow, SyncDb,
  Clock, ReplayOperation, ActorScope,
}

abbrev pub is_in_progress : OperationStatus → Bool
is_in_progress in_progress = true
is_in_progress _ = false

-- UNIQUE (tenant_id, branch_id, client_op_id).
unfoldable pub has_identity : {P : Type 0} → Text → Text → Text → OperationRow P → Bool
has_identity tenant branch op r =
    (r.tenant_id == tenant && r.branch_id == branch) && r.client_op_id == op

pub record BatchInput : Type 0 where
  pub tenant_id : Text
  pub branch_id : Text
  pub submitted_by_account_id : Option Text
  pub halt_on_failure : Bool

abbrev pub new_batch : BatchInput → ℕ → BatchRow
new_batch input id = record {
  id = id;
  tenant_id = input.tenant_id;
  branch_id = input.branch_id;
  submitted_by_account_id = input.submitted_by_account_id;
  halt_on_failure = input.halt_on_failure;
  status = batch_in_progress;
  operation_count = 0;
  applied_count = 0;
  duplicate_count = 0;
  failed_count = 0;
  stopped_at = none;
}

pub record FinalizeInput : Type 0 where
  pub status : BatchStatus
  pub operation_count : ℕ
  pub applied_count : ℕ
  pub duplicate_count : ℕ
  pub failed_count : ℕ
  pub stopped_at : Option ℕ

abbrev pub finalize_row : FinalizeInput → BatchRow → BatchRow
finalize_row input b = record b {
  status = input.status;
  operation_count = input.operation_count;
  applied_count = input.applied_count;
  duplicate_count = input.duplicate_count;
  failed_count = input.failed_count;
  stopped_at = input.stopped_at;
}

-- What `completeOperation` writes.
pub record Completion : Type 0 where
  pub status : OperationStatus
  pub failure_code : Option Text
  pub failure_message : Option Text
  pub result_ref_id : Option Text

abbrev pub complete_row : {P : Type 0} → Completion → OperationRow P → OperationRow P
complete_row c r = record r {
  status = c.status;
  failure_code = c.failure_code;
  failure_message = c.failure_message;
  result_ref_id = c.result_ref_id;
  lease_expires_at = none;
}

pub record Started (P : Type 0) : Type 0 where
  pub row : OperationRow P
  pub started : Bool
  pub payload_conflict : Bool

abbrev pub expired : ℕ → Option ℕ → Bool
expired now none = false
expired now (some at) = leb at now

module _ {P : Type 0} where
  unfoldable pub new_operation : ℕ → ActorScope → ReplayOperation P → ℕ → ℕ → ℕ → OperationRow P
  new_operation batch actor op lease_ms now id = record {
    id = id;
    batch_id = batch;
    tenant_id = actor.tenant_id;
    branch_id = actor.branch_id;
    client_op_id = op.client_op_id;
    operation_index = op.index;
    operation_type = op.operation_type;
    occurred_at = op.occurred_at;
    payload = op.payload;
    payload_hash = op.payload_hash;
    status = in_progress;
    failure_code = none;
    failure_message = none;
    result_ref_id = none;
    lease_expires_at = some (now + lease_ms);
  }

  abbrev pub reclaim_row : ℕ → ReplayOperation P → ℕ → ℕ → OperationRow P → OperationRow P
  reclaim_row batch op lease_ms now r = record r {
    batch_id = batch;
    operation_index = op.index;
    operation_type = op.operation_type;
    occurred_at = op.occurred_at;
    payload = op.payload;
    status = in_progress;
    failure_code = none;
    failure_message = none;
    result_ref_id = none;
    lease_expires_at = some (now + lease_ms);
  }

  unfoldable pub may_reclaim : ℕ → Text → ℕ → OperationRow P → Bool
  may_reclaim id hash now r =
      (eqb r.id id && is_in_progress r.status)
      && (expired now r.lease_expires_at && r.payload_hash == hash)

  abbrev pub answer_row : Bool → Option (OperationRow P) → OperationRow P → Started P
  answer_row conflict none existing = record {
    row = existing;
    started = false;
    payload_conflict = conflict;
  }
  answer_row conflict (some latest) existing = record {
    row = latest;
    started = false;
    payload_conflict = conflict;
  }

  abbrev pub returning :
      (OperationRow P → OperationRow P) → Option (OperationRow P) → Option (OperationRow P)
  returning f none = none
  returning f (some r) = some (f r)

  unfoldable pub may_complete : ℕ → OperationRow P → Bool
  may_complete id r = eqb r.id id && is_in_progress r.status

module _ {P W : Type 0} where
  unfoldable pub create_batch : BatchInput → SyncDb P W → BatchRow × SyncDb P W
  create_batch input db = (
    new_batch input db.next_id,
    record db { batches = new_batch input db.next_id ∷ db.batches; next_id = suc db.next_id },
  )

  unfoldable pub finalize_batch : ℕ → FinalizeInput → SyncDb P W → SyncDb P W
  finalize_batch id input db = record db {
    batches = update_rows (λ b. eqb b.id id) (finalize_row input) db.batches;
  }

  unfoldable pub find_operation_by_identity :
      Text → Text → Text → SyncDb P W → Option (OperationRow P)
  find_operation_by_identity tenant branch op db =
      find_row (has_identity tenant branch op) db.operations

  -- After the update of `reclaimExpiredInProgressOperation`: the row that it returned, if any.
  abbrev pub after_reclaim :
      ActorScope
      → Text
      → OperationRow P
      → Option (OperationRow P)
      → SyncDb P W
      → Started P × SyncDb P W
  after_reclaim actor op_id existing (some row) db =
      (record { row = row; started = true; payload_conflict = false }, db)
  after_reclaim actor op_id existing none db = (
    answer_row false (find_operation_by_identity actor.tenant_id actor.branch_id op_id db) existing,
    db,
  )

  unfoldable pub reclaim_expired :
      ℕ
      → ActorScope
      → ReplayOperation P
      → ℕ
      → Clock
      → OperationRow P
      → SyncDb P W
      → Started P × SyncDb P W
  reclaim_expired batch actor op lease_ms clock existing db =
      let test = may_reclaim existing.id op.payload_hash clock.db_now in
      let update = reclaim_row batch op lease_ms clock.db_now in
      after_reclaim actor op.client_op_id existing (returning update (find_row test db.operations))
        (record db { operations = update_rows test update db.operations })

  unfoldable pub start_existing :
      ℕ
      → ActorScope
      → ReplayOperation P
      → ℕ
      → Clock
      → OperationRow P
      → SyncDb P W
      → Started P × SyncDb P W
  start_existing batch actor op lease_ms clock existing db =
      if not (existing.payload_hash == op.payload_hash)
      then (answer_row true none existing, db)
      else if is_in_progress existing.status && expired clock.app_now existing.lease_expires_at
      then reclaim_expired batch actor op lease_ms clock existing db
      else (answer_row false none existing, db)

  -- `INSERT ... ON CONFLICT DO NOTHING`, then what the existing row says.
  abbrev pub start_found :
      ℕ
      → ActorScope
      → ReplayOperation P
      → ℕ
      → Clock
      → Option (OperationRow P)
      → SyncDb P W
      → Started P × SyncDb P W
  start_found batch actor op lease_ms clock none db = (
    record {
      row = new_operation batch actor op lease_ms clock.db_now db.next_id;
      started = true;
      payload_conflict = false;
    },
    record db {
      operations = new_operation batch actor op lease_ms clock.db_now db.next_id ∷ db.operations;
      next_id = suc db.next_id;
    },
  )
  start_found batch actor op lease_ms clock (some existing) db =
      start_existing batch actor op lease_ms clock existing db

  unfoldable pub try_start_operation :
      ℕ → ActorScope → ReplayOperation P → ℕ → Clock → SyncDb P W → Started P × SyncDb P W
  try_start_operation batch actor op lease_ms clock db =
      start_found batch actor op lease_ms clock
        (find_operation_by_identity actor.tenant_id actor.branch_id op.client_op_id db) db

  unfoldable pub complete_operation :
      ℕ → Completion → SyncDb P W → Option (OperationRow P) × SyncDb P W
  complete_operation id c db = (
    returning (complete_row c) (find_row (may_complete id) db.operations),
    record db { operations = update_rows (may_complete id) (complete_row c) db.operations },
  )

  unfoldable pub get_batch : Text → Text → ℕ → SyncDb P W → Option BatchRow
  get_batch tenant branch id db =
      find_row (λ b. (b.tenant_id == tenant && b.branch_id == branch) && eqb b.id id) db.batches

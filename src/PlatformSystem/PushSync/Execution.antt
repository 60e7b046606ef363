-- ===== src/PlatformSystem/PushSync/Execution.antt =====
-- `executeOperationInTransaction` of pushSync/api/router.ts. How an operation is applied to the rest of the
-- database is an argument: `none` stands for a statement that PostgreSQL refused, after which the
-- transaction takes no other statement.
pub mod Frame
pub mod Total
pub mod Settled
pub mod Dependencies
use modula_backend.Common.{
  ℕ, Bool, true, false, Option, none, some, List, [], ◌∷◌, ◌++◌, Text, codes, ◌==◌, find_row,
  if◌then◌else◌, Result, ok, err,
}
use modula_backend.PlatformSystem.PushSync.Rows.{
  OperationStatus, in_progress, applied, duplicate, failed, OperationRow, SyncDb, Clock, ActorScope,
  ReplayOperation, ReplayStatus, was_applied, was_duplicate, has_failed, ReplayResult,
}
use modula_backend.PlatformSystem.PushSync.Repository.{
  Started, Completion, find_operation_by_identity, try_start_operation, complete_operation,
}
use modula_backend.PlatformSystem.PushSync.Resolution.{
  conflict_code, dependency_code, failure, map_existing_operation, map_persisted_operation,
}

pub data ApplyOutcome : Type 0 where
  outcome_applied : Option Text → ApplyOutcome
  outcome_failed : Text → Text → ApplyOutcome

pub data SyncFailure : Type 0 where
  finalize_failed : SyncFailure

abbrev pub Apply : Type 0 → Type 0 → Type 0
Apply P W = ActorScope → ReplayOperation P → W → Option ApplyOutcome × W

-- The results of the operations before, the latest first.
abbrev pub Prior : Type 0
Prior = List (Text × ReplayResult)

unfoldable pub prior_of : Text → Prior → Option (Text × ReplayResult)
prior_of op prior = find_row (λ p. p.0 == op) prior

abbrev pub succeeded : ReplayStatus → Bool
succeeded was_applied = true
succeeded was_duplicate = true
succeeded has_failed = false

abbrev pub is_settled_well : OperationStatus → Bool
is_settled_well applied = true
is_settled_well duplicate = true
is_settled_well _ = false

abbrev pub row_succeeded : {P : Type 0} → Option (OperationRow P) → Bool
row_succeeded none = false
row_succeeded (some r) = is_settled_well r.status

-- Whether a dependency holds, with the message where it does not.
abbrev pub check_dependency :
    {P : Type 0} → Text → Option (Text × ReplayResult) → Option (OperationRow P) → Option Text
check_dependency op (some (_, r)) found =
    if succeeded r.status
    then none
    else some (codes "dependency " ++ (op ++ codes " was not applied"))
check_dependency op none found =
    if row_succeeded found
    then none
    else some (codes "dependency " ++ (op ++ codes " was not found as applied"))

abbrev pub first_message : Option Text → Option Text → Option Text
first_message none rest = rest
first_message (some m) rest = some m

abbrev pub completion_of : ApplyOutcome → Completion
completion_of (outcome_applied ref) = record {
  status = applied;
  failure_code = none;
  failure_message = none;
  result_ref_id = ref;
}
completion_of (outcome_failed code message) = record {
  status = failed;
  failure_code = some code;
  failure_message = some message;
  result_ref_id = none;
}

abbrev pub answer_unstarted : {P : Type 0} → ReplayOperation P → Started P → ReplayResult
answer_unstarted op s =
    if s.payload_conflict
    then failure op.index op.client_op_id op.operation_type conflict_code
        (codes "clientOpId already used with different payload") none
    else map_existing_operation op s.row

module _ {P W : Type 0} where
  -- The message of the first dependency that does not hold.
  unfoldable pub resolve_dependency_failure :
      Text → Text → Prior → SyncDb P W → List Text → Option Text
  resolve_dependency_failure tenant branch prior db [] = none
  resolve_dependency_failure tenant branch prior db (d ∷ ds) =
      first_message
        (check_dependency d (prior_of d prior) (find_operation_by_identity tenant branch d db))
        (resolve_dependency_failure tenant branch prior db ds)

  abbrev pub completed_result :
      Option (OperationRow P) × SyncDb P W → Result SyncFailure ReplayResult × SyncDb P W
  completed_result (none, db) = (err finalize_failed, db)
  completed_result (some row, db) = (ok (map_persisted_operation row), db)

  unfoldable pub finish :
      ℕ → ApplyOutcome → SyncDb P W → Result SyncFailure ReplayResult × SyncDb P W
  finish id outcome db = completed_result (complete_operation id (completion_of outcome) db)

  abbrev pub after_apply :
      ℕ → Option ApplyOutcome × W → SyncDb P W → Result SyncFailure ReplayResult × SyncDb P W
  after_apply id (none, world) db = (err finalize_failed, record db { world = world })
  after_apply id (some outcome, world) db = finish id outcome (record db { world = world })

  abbrev pub after_dependencies :
      Apply P W
      → ActorScope
      → ReplayOperation P
      → ℕ
      → Option Text
      → SyncDb P W
      → Result SyncFailure ReplayResult × SyncDb P W
  after_dependencies apply actor op id (some message) db =
      finish id (outcome_failed dependency_code message) db
  after_dependencies apply actor op id none db = after_apply id (apply actor op db.world) db

  abbrev pub after_start :
      Apply P W
      → ActorScope
      → ReplayOperation P
      → Prior
      → Started P × SyncDb P W
      → Result SyncFailure ReplayResult × SyncDb P W
  after_start apply actor op prior (s, db) =
      if s.started
      then after_dependencies apply actor op s.row.id
          (resolve_dependency_failure op.tenant_id op.branch_id prior db op.depends_on) db
      else (ok (answer_unstarted op s), db)

  unfoldable pub execute_operation :
      Apply P W
      → ℕ
      → ActorScope
      → ReplayOperation P
      → ℕ
      → Clock
      → Prior
      → SyncDb P W
      → Result SyncFailure ReplayResult × SyncDb P W
  execute_operation apply batch actor op lease_ms clock prior db =
      after_start apply actor op prior (try_start_operation batch actor op lease_ms clock db)

-- ===== src/PlatformSystem/PushSync/Rows.antt =====
-- The tables of offline synchronisation (pushSync/infra/repository.ts), and the operations and results of
-- pushSync/api/router.ts. Times are natural numbers, in milliseconds. The operations of a batch are
-- applied to the rest of the database, `W`.
use modula_backend.Common.{ℕ, Bool, Option, List, Text}

pub data OperationStatus : Type 0 where
  in_progress applied duplicate failed : OperationStatus

pub data BatchStatus : Type 0 where
  batch_in_progress completed partial batch_failed : BatchStatus

pub record OperationRow (P : Type 0) : Type 0 where
  pub id : ℕ
  pub batch_id : ℕ
  pub tenant_id : Text
  pub branch_id : Text
  pub client_op_id : Text
  pub operation_index : ℕ
  pub operation_type : Text
  pub occurred_at : ℕ
  pub payload : P
  pub payload_hash : Text
  pub status : OperationStatus
  pub failure_code : Option Text
  pub failure_message : Option Text
  pub result_ref_id : Option Text
  pub lease_expires_at : Option ℕ

pub record BatchRow : Type 0 where
  pub id : ℕ
  pub tenant_id : Text
  pub branch_id : Text
  pub submitted_by_account_id : Option Text
  pub halt_on_failure : Bool
  pub status : BatchStatus
  pub operation_count : ℕ
  pub applied_count : ℕ
  pub duplicate_count : ℕ
  pub failed_count : ℕ
  pub stopped_at : Option ℕ

-- The generated ids are numbers that are used once.
pub record SyncDb (P W : Type 0) : Type 0 where
  pub batches : List BatchRow
  pub operations : List (OperationRow P)
  pub next_id : ℕ
  pub world : W

-- NOW() of the transaction, and Date.now() of the server.
pub record Clock : Type 0 where
  pub db_now : ℕ
  pub app_now : ℕ

pub record ActorScope : Type 0 where
  pub account_id : Text
  pub tenant_id : Text
  pub branch_id : Text

pub record ReplayOperation (P : Type 0) : Type 0 where
  pub index : ℕ
  pub client_op_id : Text
  pub operation_type : Text
  pub device_id : Option Text
  pub depends_on : List Text
  pub tenant_id : Text
  pub branch_id : Text
  pub occurred_at : ℕ
  pub payload : P
  pub payload_hash : Text

pub data ReplayStatus : Type 0 where
  was_applied was_duplicate has_failed : ReplayStatus

pub data ResolutionCategory : Type 0 where
  retryable permanent manual : ResolutionCategory

pub record ResolutionHint : Type 0 where
  pub category : ResolutionCategory
  pub retry_after_ms : Option ℕ
  pub action : Text

pub record ReplayResult : Type 0 where
  pub index : ℕ
  pub client_op_id : Text
  pub operation_type : Text
  pub status : ReplayStatus
  pub code : Option Text
  pub message : Option Text
  pub result_ref_id : Option Text
  pub resolution : Option ResolutionHint

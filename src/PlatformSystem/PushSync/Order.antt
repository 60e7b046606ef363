-- ===== src/PlatformSystem/PushSync/Order.antt =====
-- `validateOperationDependencyOrder` of pushSync/api/router.ts, and the whole of `parseReplayRequestBody`.
pub mod Valid
pub mod Accepted
use modula_backend.Common.{
  ℕ, suc, Bool, true, false, not, ◌&&◌, Option, none, some, List, [], ◌∷◌, Text, codes, ◌==◌, leb,
  ltb, length, is_some, find_row, map, if◌then◌else◌, Result, ok, err, or_error, error_if,
}
use modula_backend.Common.Steps.{◌>>=◌, ◌>>◌}
use modula_backend.Platform.AccessControl.Authorize.{upper}
use modula_backend.PlatformSystem.PushSync.Rows.{ActorScope, ReplayOperation}
use modula_backend.PlatformSystem.PushSync.Request.{
  RequestError, payload_invalid, RawBody, RawHalt, halt_missing, halt_bool, halt_other,
  RawOperation, parse_optional_device_id, parse_operations,
}

-- `opIndexByClientOpId`.
abbrev pub Indexes : Type 0
Indexes = List (Text × ℕ)

unfoldable pub index_of : Text → Indexes → Option (Text × ℕ)
index_of op indexes = find_row (λ p. p.0 == op) indexes

module _ {P : Type 0} where
  unfoldable pub collect_indexes : List (ReplayOperation P) → Indexes → Result RequestError Indexes
  unfolding index_of
  collect_indexes [] seen = ok seen
  collect_indexes (op ∷ ops) seen = do
    error_if (is_some (index_of op.client_op_id seen)) payload_invalid
    collect_indexes ops ((op.client_op_id, op.index) ∷ seen)

abbrev pub comes_late : ℕ → Option (Text × ℕ) → Bool
comes_late index none = false
comes_late index (some (_, at)) = leb index at

unfoldable pub check_depends : Indexes → ℕ → List Text → Result RequestError (Unit {0})
unfolding index_of
check_depends indexes index [] = ok tt
check_depends indexes index (d ∷ ds) = do
  error_if (comes_late index (index_of d indexes)) payload_invalid
  check_depends indexes index ds

module _ {P : Type 0} where
  unfoldable pub check_all_depends :
      Indexes → List (ReplayOperation P) → Result RequestError (Unit {0})
  unfolding check_depends
  check_all_depends indexes [] = ok tt
  check_all_depends indexes (op ∷ ops) = do
    check_depends indexes op.index op.depends_on
    check_all_depends indexes ops

  unfoldable pub validate_operation_dependency_order :
      List (ReplayOperation P) → Result RequestError (Unit {0})
  unfolding collect_indexes check_all_depends
  validate_operation_dependency_order ops = do
    indexes ← collect_indexes ops []
    check_all_depends indexes ops

-- `String(value).toLowerCase() !== "false"` on ASCII letters.
unfoldable pub normalize_halt_on_failure : RawHalt → Bool
normalize_halt_on_failure halt_missing = true
normalize_halt_on_failure (halt_bool b) = b
normalize_halt_on_failure (halt_other t) = not (map upper t == codes "FALSE")

module _ {P : Type 0} (hash : P → Text) (parse_date : Text → Option ℕ) where
  unfoldable pub parse_replay_request_body :
      ActorScope → Option (RawBody P) → Result RequestError (List (ReplayOperation P) × Bool)
  unfolding parse_optional_device_id parse_operations validate_operation_dependency_order
  parse_replay_request_body actor body = do
    normalized ← or_error body payload_invalid
    batch_device ← parse_optional_device_id normalized.device_id
    raw ← or_error normalized.operations payload_invalid
    error_if (leb (length raw) 0) payload_invalid
    error_if (ltb 100 (length raw)) payload_invalid
    ops ← parse_operations hash parse_date actor raw 0 batch_device
    validate_operation_dependency_order ops
    ok (ops, normalize_halt_on_failure normalized.halt_on_failure)

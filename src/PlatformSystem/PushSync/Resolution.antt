-- ===== src/PlatformSystem/PushSync/Resolution.antt =====
-- What a client is told to do about a failed operation (`buildResolutionHint` and the mappings of
-- stored rows to results in pushSync/api/router.ts).
use modula_backend.Common.{
  ℕ, Bool, true, false, Option, none, some, List, [], ◌∷◌, Text, codes, ◌==◌, is_empty, is_some,
  trim, map, find_row, if◌then◌else◌,
}
use modula_backend.Platform.AccessControl.Authorize.{upper}
use modula_backend.PlatformSystem.PushSync.Rows.{
  OperationStatus, in_progress, applied, duplicate, failed, OperationRow, ReplayOperation,
  ReplayStatus, was_applied, was_duplicate, has_failed, retryable, permanent, manual,
  ResolutionHint, ReplayResult,
}

abbrev pub in_progress_code : Text
in_progress_code = codes "OFFLINE_SYNC_IN_PROGRESS"

abbrev pub failed_code : Text
failed_code = codes "OFFLINE_SYNC_OPERATION_FAILED"

abbrev pub conflict_code : Text
conflict_code = codes "OFFLINE_SYNC_PAYLOAD_CONFLICT"

abbrev pub dependency_code : Text
dependency_code = codes "OFFLINE_SYNC_DEPENDENCY_MISSING"

-- The codes that a person has to resolve.
abbrev pub manual_codes : List Text
manual_codes =
    codes "OFFLINE_SYNC_DEPENDENCY_MISSING"
    ∷ codes "CASH_SESSION_NOT_FOUND"
    ∷ codes "CASH_SESSION_ALREADY_OPEN"
    ∷ codes "CASH_SESSION_NOT_OPEN"
    ∷ codes "ATTENDANCE_ALREADY_CHECKED_IN"
    ∷ codes "ATTENDANCE_NO_ACTIVE_CHECKIN"
    ∷ codes "BRANCH_FROZEN"
    ∷ codes "SUBSCRIPTION_FROZEN"
    ∷ codes "ENTITLEMENT_BLOCKED"
    ∷ codes "ENTITLEMENT_READ_ONLY"
    ∷ codes "NO_MEMBERSHIP"
    ∷ codes "NO_BRANCH_ACCESS"
    ∷ codes "PERMISSION_DENIED"
    ∷ codes "ORDER_REQUIRES_OPEN_CASH_SESSION"
    ∷ codes "SALE_CHECKOUT_REQUIRES_OPEN_CASH_SESSION"
    ∷ codes "SALE_FINALIZE_KHQR_CONFIRMATION_REQUIRED"
    ∷ codes "SALE_FINALIZE_KHQR_PROOF_MISMATCH"
    ∷ codes "SALE_CASH_TENDER_AMOUNT_INVALID"
    ∷ codes "SALE_CASH_RECEIVED_INSUFFICIENT"
    ∷ []

abbrev pub retry_after : ℕ → ResolutionHint
retry_after ms = record {
  category = retryable;
  retry_after_ms = some ms;
  action = codes "retry_with_backoff";
}

-- `toUpperCase` on ASCII letters; codes are ASCII.
unfoldable pub build_resolution_hint : Text → ResolutionHint
build_resolution_hint code =
    let normalized = map upper code in
    if normalized == in_progress_code
    then retry_after 2000
    else if normalized == failed_code
    then retry_after 5000
    else if is_some (find_row (λ c. c == normalized) manual_codes)
    then record {
      category = manual;
      retry_after_ms = none;
      action = codes "requires_user_intervention";
    }
    else record {
      category = permanent;
      retry_after_ms = none;
      action = codes "mark_permanent_failed";
    }

abbrev pub code_or_failed : Option Text → Text
code_or_failed none = failed_code
code_or_failed (some c) = if is_empty (trim c) then failed_code else trim c

abbrev pub did_fail : ReplayStatus → Bool
did_fail has_failed = true
did_fail _ = false

unfoldable pub with_failure_resolution : ReplayResult → ReplayResult
with_failure_resolution r =
    if did_fail r.status
    then record r { resolution = some (build_resolution_hint (code_or_failed r.code)) }
    else r

abbrev pub text_or : Option Text → Text → Text
text_or none t = t
text_or (some s) t = s

unfoldable pub failure : ℕ → Text → Text → Text → Text → Option Text → ReplayResult
failure index op type code message ref = with_failure_resolution (record {
  index = index;
  client_op_id = op;
  operation_type = type;
  status = has_failed;
  code = some code;
  message = some message;
  result_ref_id = ref;
  resolution = none;
})

unfoldable pub success : ℕ → Text → Text → ReplayStatus → Option Text → ReplayResult
success index op type status ref = record {
  index = index;
  client_op_id = op;
  operation_type = type;
  status = status;
  code = none;
  message = none;
  result_ref_id = ref;
  resolution = none;
}

module _ {P : Type 0} where
  abbrev pub existing_result : ReplayOperation P → OperationRow P → OperationStatus → ReplayResult
  existing_result op row in_progress =
      failure op.index op.client_op_id op.operation_type in_progress_code
        (codes "operation is currently in progress") none
  existing_result op row failed =
      failure op.index op.client_op_id op.operation_type (text_or row.failure_code failed_code)
        (text_or row.failure_message (codes "operation failed")) row.result_ref_id
  existing_result op row _ =
      success op.index op.client_op_id op.operation_type was_duplicate row.result_ref_id

  unfoldable pub map_existing_operation : ReplayOperation P → OperationRow P → ReplayResult
  map_existing_operation op row = existing_result op row row.status

  abbrev pub persisted_result : OperationRow P → OperationStatus → ReplayResult
  persisted_result row in_progress =
      failure row.operation_index row.client_op_id row.operation_type in_progress_code
        (codes "operation is currently in progress") row.result_ref_id
  persisted_result row failed =
      failure row.operation_index row.client_op_id row.operation_type
        (text_or row.failure_code failed_code)
        (text_or row.failure_message (codes "operation failed")) row.result_ref_id
  persisted_result row applied =
      success row.operation_index row.client_op_id row.operation_type was_applied row.result_ref_id
  persisted_result row duplicate =
      success row.operation_index row.client_op_id row.operation_type was_duplicate
        row.result_ref_id

  unfoldable pub map_persisted_operation : OperationRow P → ReplayResult
  map_persisted_operation row = persisted_result row row.status

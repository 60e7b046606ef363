-- ===== src/PlatformSystem/PushSync/History/Answers.antt =====
-- What a row answers to an operation that was not started (pushSync/api/router.ts).
use modula_backend.Common.{
  codes, Bool, true, false, ◌≡◌, ◌≢◌, refl, sym, ap, ◌∙◌, none, ◌==◌, if◌then◌else◌, Bool-cases,
  inl, inr,
}
use modula_backend.PlatformSystem.PushSync.Rows.{
  OperationRow, ReplayOperation, was_applied, was_duplicate, has_failed, OperationStatus,
  in_progress, applied, duplicate, failed,
}
use modula_backend.PlatformSystem.PushSync.Repository.{Started, is_in_progress}
use modula_backend.PlatformSystem.PushSync.Resolution.{
  map_existing_operation, persisted_result, existing_result, conflict_code, failure, success,
  with_failure_resolution,
}
use modula_backend.PlatformSystem.PushSync.Execution.{answer_unstarted}
use modula_backend.PlatformSystem.PushSync.Execution.Settled.{answer_held}

module _ {P : Type 0} (op : ReplayOperation P) (row : OperationRow P) where
  pub answer_same :
      (row.payload_hash == op.payload_hash) ≡ true
      → answer_held op row ≡ map_existing_operation op row
  unfolding answer_held
  answer_same h = rw h refl

  -- The answer from a row whose result was a success.
  pub answer_applied :
      (st : OperationStatus)
      → (persisted_result row st).status ≡ was_applied
      → existing_result op row st
        ≡ success op.index op.client_op_id op.operation_type was_duplicate
            (persisted_result row st).result_ref_id
  unfolding failure success with_failure_resolution
  answer_applied in_progress h = cc
  answer_applied failed h = cc
  answer_applied applied h = refl
  answer_applied duplicate h = refl

  -- The answer from a row whose result was a failure.
  pub answer_failed :
      (st : OperationStatus)
      → is_in_progress st ≡ false
      → (persisted_result row st).status ≡ has_failed
      → existing_result op row st ≡ record (persisted_result row st) {
        index = op.index;
        client_op_id = op.client_op_id;
        operation_type = op.operation_type;
      }
  unfolding failure success with_failure_resolution
  answer_failed in_progress k h = cc
  answer_failed failed k h = refl
  answer_failed applied k h = cc
  answer_failed duplicate k h = cc

  existing_not_applied : (st : OperationStatus) → (existing_result op row st).status ≢ was_applied
  unfolding failure success with_failure_resolution
  existing_not_applied in_progress h = cc
  existing_not_applied failed h = cc
  existing_not_applied applied h = cc
  existing_not_applied duplicate h = cc

module _ {P : Type 0} where
  pub unstarted_not_applied :
      (op : ReplayOperation P) (s : Started P) → (answer_unstarted op s).status ≢ was_applied
  unfolding failure with_failure_resolution map_existing_operation
  unstarted_not_applied op s h = elim (Bool-cases s.payload_conflict) [
    | inl conflict ↦
        let e =
          sym (
            ap
              (λ (b : Bool).
                (if b
                  then failure op.index op.client_op_id op.operation_type conflict_code
                      (codes "clientOpId already used with different payload") none
                  else map_existing_operation op s.row).status)
              conflict)
          ∙ h in
        cc
    | inr same ↦ existing_not_applied op s.row s.row.status (
        sym (
          ap
            (λ (b : Bool).
              (if b
                then failure op.index op.client_op_id op.operation_type conflict_code
                    (codes "clientOpId already used with different payload") none
                else map_existing_operation op s.row).status)
            same)
        ∙ h)
  ]

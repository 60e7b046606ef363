-- ===== src/PlatformSystem/PushSync/Tests.antt =====
-- Two replays of an operation that a client took offline, and the theorems on this run.
use modula_backend.Common.{
  ℕ, suc, ◌+◌, ◌≤◌, true, ◌≡◌, ◌↔◌, refl, Option, none, some, List, [], ◌∷◌, Text, codes, ◌==◌, ok,
  pos, inr, All, trim, trim_start, is_space,
}
use modula_backend.PosOperation.CashSession.Guards.{matches}
use modula_backend.Platform.Transactions.{with_transaction}
use modula_backend.PlatformSystem.PushSync.Rows.{
  OperationRow, SyncDb, Clock, ActorScope, ReplayOperation, ReplayResult, was_applied,
  was_duplicate, in_progress,
}
use modula_backend.PlatformSystem.PushSync.Repository.{
  find_operation_by_identity, try_start_operation, complete_operation, may_complete, new_operation,
  has_identity, expired,
}
use modula_backend.PlatformSystem.PushSync.Resolution.{
  map_persisted_operation, failure, success, with_failure_resolution, build_resolution_hint,
}
use modula_backend.PlatformSystem.PushSync.Execution.{
  Apply, outcome_applied, outcome_failed, execute_operation, finish, resolve_dependency_failure,
}
use modula_backend.PlatformSystem.PushSync.Execution.Settled.{
  answer_held, execute_operation-answer_held,
}
use modula_backend.PlatformSystem.PushSync.Execution.Dependencies.{
  Met, resolve_dependency_failure_iff,
}
use modula_backend.PlatformSystem.PushSync.Request.{
  RawBody, RawOperation, missing, halt_missing, normalize_optional, assert_uuid,
  assert_operation_type, parse_operation_context, parse_optional_device_id, parse_depends_on,
  parse_occurred_at, parse_operation, parse_operations,
}
use modula_backend.PlatformSystem.PushSync.Order.{
  validate_operation_dependency_order, collect_indexes, check_all_depends, check_depends, index_of,
  parse_replay_request_body, normalize_halt_on_failure,
}
use modula_backend.PlatformSystem.PushSync.Order.Valid.{
  InOrder, validate_operation_dependency_order_iff,
}
use modula_backend.PlatformSystem.PushSync.Order.Accepted.{
  RequestAccepted, parse_replay_request_body-Accepted,
}
use modula_backend.PlatformSystem.PushSync.Replay.{
  Run, run_operation, handle_replay, resolve_lease_ms,
}
use modula_backend.PlatformSystem.PushSync.Replay.Recorded.{Recorded, handle_replay-Recorded}
use modula_backend.PlatformSystem.PushSync.Replay.Lease.{resolve_lease_ms-expired}
use modula_backend.PlatformSystem.PushSync.History.Statements.{Evolved}
use modula_backend.PlatformSystem.PushSync.History.Requests.{at_once, after, runs, Later-Evolved}
use modula_backend.PlatformSystem.PushSync.History.Once.{applied_once, failed_forever}
use modula_backend.PlatformSystem.PushSync.History.Committed.{AllSettled, Later-AllSettled}

abbrev staff : ActorScope
staff = record { account_id = codes "acc"; tenant_id = codes "t"; branch_id = codes "b" }

abbrev noon : Clock
noon = record { db_now = 1000; app_now = 1000 }

abbrev count_calls : Apply ℕ ℕ
count_calls actor op w = (some (outcome_applied (some (codes "ref"))), suc w)

abbrev refuse : Apply ℕ ℕ
refuse actor op w = (some (outcome_failed (codes "BRANCH_FROZEN") (codes "frozen")), w)

abbrev operation : ℕ → Text → List Text → ReplayOperation ℕ
operation index id deps = record {
  index = index;
  client_op_id = id;
  operation_type = codes "cashSession.open";
  device_id = none;
  depends_on = deps;
  tenant_id = codes "t";
  branch_id = codes "b";
  occurred_at = 900;
  payload = 7;
  payload_hash = codes "h";
}

abbrev nothing : SyncDb ℕ ℕ
nothing = record { batches = []; operations = []; next_id = 1; world = 0 }

abbrev run_with : Apply ℕ ℕ → Run ℕ ℕ
run_with apply = record {
  apply = apply;
  actor = staff;
  batch = 0;
  lease_ms = 120000;
  halt = true;
  clock = λ _. noon;
}

abbrev op_a : ReplayOperation ℕ
op_a = operation 0 (codes "a") []

abbrev op_b : ReplayOperation ℕ
op_b = operation 1 (codes "b") (codes "a" ∷ [])

abbrev after_a : SyncDb ℕ ℕ
after_a = (run_operation (run_with count_calls) op_a [] nothing).1

abbrev after_b : SyncDb ℕ ℕ
after_b = (run_operation (run_with count_calls) op_b [] after_a).1

handle_replay-Recorded_example :
    Recorded staff true 2 1
      (handle_replay count_calls staff 120000 true (λ _. noon) (op_a ∷ op_b ∷ []) nothing)
handle_replay-Recorded_example =
    handle_replay-Recorded count_calls (λ actor op w. refl) staff 120000 true (λ _. noon)
      (op_a ∷ op_b ∷ []) nothing

-- The first transaction of `a`.
first_result :
    (run_operation (run_with count_calls) op_a [] nothing).0
    ≡ ok (success 0 (codes "a") (codes "cashSession.open") was_applied (some (codes "ref")))
unfolding run_operation with_transaction execute_operation try_start_operation
    find_operation_by_identity resolve_dependency_failure finish complete_operation may_complete
    new_operation map_persisted_operation has_identity success ◌==◌
first_result = refl

applied_once_example :
    run_operation (run_with count_calls) (operation 5 (codes "a") []) [] after_b ≡ (
      ok (success 5 (codes "a") (codes "cashSession.open") was_duplicate (some (codes "ref"))),
      after_b,
    )
unfolding success
applied_once_example =
    applied_once (run_with count_calls) op_a [] nothing
      (success 0 (codes "a") (codes "cashSession.open") was_applied (some (codes "ref")))
      (run_with count_calls) (operation 5 (codes "a") []) [] after_b tt first_result refl
      (after at_once (runs (run_with count_calls) op_b []))
      (record { tenant = refl; branch = refl; client_op = refl; payload = refl })

abbrev refused_result : ReplayResult
refused_result =
    failure 0 (codes "a") (codes "cashSession.open") (codes "BRANCH_FROZEN") (codes "frozen") none

first_refusal : (run_operation (run_with refuse) op_a [] nothing).0 ≡ ok refused_result
unfolding run_operation with_transaction execute_operation try_start_operation
    find_operation_by_identity resolve_dependency_failure finish complete_operation may_complete
    new_operation map_persisted_operation has_identity failure with_failure_resolution
    build_resolution_hint ◌==◌ trim
first_refusal = refl

failed_forever_example :
    run_operation (run_with count_calls) op_a [] (run_operation (run_with refuse) op_a [] nothing).1
    ≡ (
      ok (record refused_result { index = 0 }),
      (run_operation (run_with refuse) op_a [] nothing).1,
    )
unfolding failure with_failure_resolution find_operation_by_identity
failed_forever_example =
    failed_forever (run_with refuse) op_a [] nothing refused_result (run_with count_calls) op_a []
      (run_operation (run_with refuse) op_a [] nothing).1 tt refl first_refusal refl at_once
      (record { tenant = refl; branch = refl; client_op = refl; payload = refl })

abbrev row_a : OperationRow ℕ
row_a = record {
  id = 1;
  batch_id = 0;
  tenant_id = codes "t";
  branch_id = codes "b";
  client_op_id = codes "a";
  operation_index = 0;
  operation_type = codes "cashSession.open";
  occurred_at = 900;
  payload = 7;
  payload_hash = codes "h";
  status = in_progress;
  failure_code = none;
  failure_message = none;
  result_ref_id = none;
  lease_expires_at = some 121000;
}

abbrev working : SyncDb ℕ ℕ
working = record nothing { operations = row_a ∷ []; next_id = 2 }

execute_operation-answer_held_example :
    execute_operation count_calls 0 staff op_a 120000 noon [] working
    ≡ (ok (answer_held op_a row_a), working)
unfolding find_operation_by_identity has_identity ◌==◌
execute_operation-answer_held_example =
    execute_operation-answer_held count_calls 0 staff op_a 120000 noon [] working row_a refl
      (inr (inr refl))

Later-Evolved_example : Evolved nothing after_b
Later-Evolved_example = Later-Evolved (
    after (after at_once (runs (run_with count_calls) op_a []))
      (runs (run_with count_calls) op_b []))

Later-AllSettled_example : AllSettled after_b.operations
Later-AllSettled_example =
    Later-AllSettled
      (after (after at_once (runs (run_with count_calls) op_a []))
        (runs (run_with count_calls) op_b []))
      tt

validate_operation_dependency_order_iff_example :
    (validate_operation_dependency_order (op_a ∷ op_b ∷ []) ≡ ok tt) ↔ InOrder (op_a ∷ op_b ∷ [])
validate_operation_dependency_order_iff_example =
    validate_operation_dependency_order_iff (op_a ∷ op_b ∷ [])

resolve_dependency_failure_iff_example :
    (resolve_dependency_failure (codes "t") (codes "b") [] working (codes "a" ∷ []) ≡ none)
    ↔ All (Met (codes "t") (codes "b") [] working) (codes "a" ∷ [])
resolve_dependency_failure_iff_example =
    resolve_dependency_failure_iff (codes "t") (codes "b") [] working (codes "a" ∷ [])

abbrev not_applied : Text
not_applied = codes "dependency a was not found as applied"

resolve_lease_ms-expired_example :
    (5000 ≤ resolve_lease_ms (some (pos 1)))
    × (resolve_lease_ms (some (pos 1)) ≤ 3600000)
    × ((expired 6000
            (new_operation 0 staff op_a (resolve_lease_ms (some (pos 1))) 1000 1).lease_expires_at
          ≡ true)
        ↔ (1000 + resolve_lease_ms (some (pos 1)) ≤ 6000))
resolve_lease_ms-expired_example = resolve_lease_ms-expired 0 1 staff op_a (some (pos 1)) 1000 6000

abbrev uuid_a : Text
uuid_a = codes "0b8e2c0a-7a4e-4b7d-9d61-3f3f6a1f9a01"

abbrev raw_a : RawOperation ℕ
raw_a = record {
  client_op_id = some uuid_a;
  operation_type = some (codes "cashSession.open");
  tenant_id = none;
  branch_id = none;
  device_id = none;
  depends_on = missing;
  occurred_at = some (codes "2026");
  payload = some 7;
}

abbrev body_a : RawBody ℕ
body_a = record {
  device_id = none;
  operations = some (some raw_a ∷ []);
  halt_on_failure = halt_missing;
}

abbrev hash_of : ℕ → Text
hash_of n = n ∷ []

abbrev year : Text → Option ℕ
year t = some 900

abbrev parsed_a : ReplayOperation ℕ
parsed_a = record (operation 0 uuid_a []) { payload_hash = 7 ∷ [] }

parse_replay_request_body-Accepted_example : RequestAccepted hash_of year staff (parsed_a ∷ [])
unfolding parse_replay_request_body parse_operations parse_operation assert_uuid
    assert_operation_type parse_operation_context parse_optional_device_id parse_depends_on
    parse_occurred_at normalize_optional normalize_halt_on_failure
    validate_operation_dependency_order collect_indexes check_all_depends check_depends index_of
    ◌==◌ trim trim_start is_space matches
parse_replay_request_body-Accepted_example =
    parse_replay_request_body-Accepted hash_of year staff (some body_a) (parsed_a ∷ []) true refl

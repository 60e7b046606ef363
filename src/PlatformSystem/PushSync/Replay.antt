-- ===== src/PlatformSystem/PushSync/Replay.antt =====
-- `handleReplay` of pushSync/api/router.ts: the operations of a batch, one transaction after another, and
-- the counts and status of the batch; and the lease of an operation.
pub mod Counters
pub mod Recorded
pub mod Lease
use modula_backend.Common.{
  ℕ, suc, ◌+◌, Bool, true, false, ◌&&◌, Option, none, some, List, [], ◌∷◌, ◌++◌, Text, eqb, ltb,
  length, if◌then◌else◌, Result, ok, err, ℤ, pos, negsuc,
}
use modula_backend.Platform.Transactions.{with_transaction}
use modula_backend.PlatformSystem.PushSync.Rows.{
  completed, partial, batch_failed, BatchStatus, SyncDb, Clock, ActorScope, ReplayOperation,
  ReplayStatus, was_applied, was_duplicate, has_failed, ReplayResult,
}
use modula_backend.PlatformSystem.PushSync.Repository.{create_batch, finalize_batch, FinalizeInput}
use modula_backend.PlatformSystem.PushSync.Resolution.{did_fail}
use modula_backend.PlatformSystem.PushSync.Execution.{Apply, SyncFailure, Prior, execute_operation}

-- `resolvePushSyncOperationLeaseMs`: `none` where the setting is no finite number, else its floor.
unfoldable pub resolve_lease_ms : Option ℤ → ℕ
resolve_lease_ms none = 120000
resolve_lease_ms (some (negsuc n)) = 5000
resolve_lease_ms (some (pos n)) = if ltb n 5000 then 5000 else if ltb 3600000 n then 3600000 else n

-- The variables of the loop.
pub record Progress : Type 0 where
  pub results : List ReplayResult
  pub prior : Prior
  pub stopped_at : Option ℕ
  pub applied_count : ℕ
  pub duplicate_count : ℕ
  pub failed_count : ℕ

abbrev pub no_progress : Progress
no_progress = record {
  results = [];
  prior = [];
  stopped_at = none;
  applied_count = 0;
  duplicate_count = 0;
  failed_count = 0;
}

abbrev pub count_if : ReplayStatus → ReplayStatus → ℕ → ℕ
count_if was_applied was_applied n = suc n
count_if was_duplicate was_duplicate n = suc n
count_if has_failed has_failed n = suc n
count_if _ _ n = n

abbrev pub stop_if : Bool → ℕ → Option ℕ → Option ℕ
stop_if c index before = if c then some index else before

unfoldable pub record_result : Bool → ℕ → Text → ReplayResult → Progress → Progress
record_result halt index op r p = record {
  results = p.results ++ (r ∷ []);
  prior = (op, r) ∷ p.prior;
  stopped_at = stop_if (halt && did_fail r.status) index p.stopped_at;
  applied_count = count_if was_applied r.status p.applied_count;
  duplicate_count = count_if was_duplicate r.status p.duplicate_count;
  failed_count = count_if has_failed r.status p.failed_count;
}

abbrev pub final_status_of : ℕ → ℕ → ℕ → BatchStatus
final_status_of applied duplicate failed =
    if eqb failed 0
    then completed
    else if ltb 0 (applied + duplicate)
    then partial
    else batch_failed

unfoldable pub finalization : Progress → FinalizeInput
finalization p = record {
  status = final_status_of p.applied_count p.duplicate_count p.failed_count;
  operation_count = length p.results;
  applied_count = p.applied_count;
  duplicate_count = p.duplicate_count;
  failed_count = p.failed_count;
  stopped_at = p.stopped_at;
}

-- The settings of a batch: how an operation is applied, the caller, the batch and the lease, whether a
-- failure stops the loop, and the clock at each operation.
pub record Run (P W : Type 0) : Type 0 where
  pub apply : Apply P W
  pub actor : ActorScope
  pub batch : ℕ
  pub lease_ms : ℕ
  pub halt : Bool
  pub clock : ℕ → Clock

module _ {P W : Type 0} where
  unfoldable pub run_operation :
      Run P W
      → ReplayOperation P
      → Prior
      → SyncDb P W
      → Result SyncFailure ReplayResult × SyncDb P W
  run_operation run op prior =
      with_transaction
        (execute_operation run.apply run.batch run.actor op run.lease_ms (run.clock op.index) prior)

  -- What follows a result: the loop ends, or goes on with `rest`.
  abbrev pub go_on :
      (Progress → SyncDb P W → Result SyncFailure Progress × SyncDb P W)
      → Bool
      → Progress
      → SyncDb P W
      → Result SyncFailure Progress × SyncDb P W
  go_on rest true p db = (ok p, db)
  go_on rest false p db = rest p db

  abbrev pub after_operation :
      Bool
      → ReplayOperation P
      → (Progress → SyncDb P W → Result SyncFailure Progress × SyncDb P W)
      → Progress
      → Result SyncFailure ReplayResult × SyncDb P W
      → Result SyncFailure Progress × SyncDb P W
  after_operation halt op rest p (err e, db) = (err e, db)
  after_operation halt op rest p (ok r, db) =
      go_on rest (halt && did_fail r.status) (record_result halt op.index op.client_op_id r p) db

  -- The loop: an error of a transaction leaves it, a failed operation stops it if it halts on failure.
  unfoldable pub replay_operations :
      Run P W
      → List (ReplayOperation P)
      → Progress
      → SyncDb P W
      → Result SyncFailure Progress × SyncDb P W
  replay_operations run [] p db = (ok p, db)
  replay_operations run (op ∷ ops) p db =
      after_operation run.halt op (λ q d. replay_operations run ops q d) p
        (run_operation run op p.prior db)

  abbrev pub finalized :
      ℕ → Result SyncFailure Progress × SyncDb P W → Result SyncFailure Progress × SyncDb P W
  finalized batch (err e, db) = (err e, db)
  finalized batch (ok p, db) = (ok p, finalize_batch batch (finalization p) db)

  -- The answer is the batch with the results and the place where it stopped.
  unfoldable pub handle_replay :
      Apply P W
      → ActorScope
      → ℕ
      → Bool
      → (ℕ → Clock)
      → List (ReplayOperation P)
      → SyncDb P W
      → Result SyncFailure Progress × SyncDb P W
  handle_replay apply actor lease_ms halt clock ops db =
      let (batch, db') =
        create_batch
          (record {
            tenant_id = actor.tenant_id;
            branch_id = actor.branch_id;
            submitted_by_account_id = some actor.account_id;
            halt_on_failure = halt;
          })
          db in
      finalized batch.id (
        replay_operations
          (record {
            apply = apply;
            actor = actor;
            batch = batch.id;
            lease_ms = lease_ms;
            halt = halt;
            clock = clock;
          })
          ops no_progress db')

-- ===== src/PlatformSystem/PushSync/History/Statements.antt =====
-- A whole transaction of pushSync/api/router.ts does no more to the operation rows than its statements may.
use modula_backend.Common.{
  ℕ, ◌&&◌, ◌≡◌, refl, Option, none, some, Text, ◌==◌, Result, ok, err, Bool-cases, inl, inr, arith,
  find_row,
}
use modula_backend.Platform.Transactions.{commit_or_rollback}
use modula_backend.PlatformSystem.PushSync.Rows.{
  OperationRow, SyncDb, Clock, ActorScope, ReplayOperation, ReplayResult,
}
use modula_backend.PlatformSystem.PushSync.Repository.{
  Started, Completion, has_identity, find_operation_by_identity, try_start_operation,
  complete_operation, start_found, start_existing, reclaim_expired, after_reclaim, is_in_progress,
  expired, may_reclaim, reclaim_row, may_complete, complete_row, new_operation,
}
use modula_backend.PlatformSystem.PushSync.Execution.{
  Apply, Prior, ApplyOutcome, SyncFailure, execute_operation, after_start, after_dependencies,
  after_apply, finish, completed_result, completion_of,
}
use modula_backend.PlatformSystem.PushSync.History.Evolves.{
  Gentle, Evolves, unchanged, updated, inserted,
}

-- From one database to the other.
abbrev pub Evolved : {P W : Type 0} → SyncDb P W → SyncDb P W → Type 0
Evolved before after = Evolves before.next_id before.operations after.next_id after.operations

module _ {P : Type 0} where
  reclaim-Gentle :
      (id : ℕ) (hash : Text) (now batch : ℕ) (op : ReplayOperation P) (lease now' : ℕ)
      → Gentle (may_reclaim id hash now) (reclaim_row batch op lease now')
  unfolding may_reclaim has_identity
  reclaim-Gentle id hash now batch op lease now' = record {
    picks = λ r h. rw h (ground arith);
    keeps_id = λ r. refl;
    keeps_identity = λ tenant branch o r. refl;
  }

  complete-Gentle : (id : ℕ) (c : Completion) → Gentle {P = P} (may_complete id) (complete_row c)
  unfolding may_complete has_identity
  complete-Gentle id c = record {
    picks = λ r h. rw h (ground arith);
    keeps_id = λ r. refl;
    keeps_identity = λ tenant branch o r. refl;
  }

module _ {P W : Type 0} (before : SyncDb P W) where
  after_reclaim-Evolved :
      (actor : ActorScope) (op : Text) (existing : OperationRow P) (o : Option (OperationRow P))
      (db : SyncDb P W)
      → Evolved before db
      → Evolved before (after_reclaim actor op existing o db).1
  after_reclaim-Evolved actor op existing none db e = e
  after_reclaim-Evolved actor op existing (some r) db e = e

  start_existing-Evolved :
      (batch : ℕ) (actor : ActorScope) (op : ReplayOperation P) (lease : ℕ) (clock : Clock)
      (row : OperationRow P)
      → Evolved before (start_existing batch actor op lease clock row before).1
  unfolding start_existing reclaim_expired
  start_existing-Evolved batch actor op lease clock row =
      elim (Bool-cases (row.payload_hash == op.payload_hash)) [
        | inr differs ↦ rw differs unchanged
        | inl same ↦
            elim (Bool-cases
              (is_in_progress row.status && expired clock.app_now row.lease_expires_at)) [
                | inl late ↦
                    rw (same, late)
                      (after_reclaim-Evolved actor op.client_op_id row _ _ (
                        updated _ _
                          (reclaim-Gentle row.id op.payload_hash clock.db_now batch op lease
                            clock.db_now)
                          unchanged))
                | inr fresh ↦ rw (same, fresh) unchanged
              ]
      ]

  pub start_found-Evolved :
      (batch : ℕ) (actor : ActorScope) (op : ReplayOperation P) (lease : ℕ) (clock : Clock)
      (o : Option (OperationRow P))
      → find_row (has_identity actor.tenant_id actor.branch_id op.client_op_id) before.operations
        ≡ o
      → Evolved before (start_found batch actor op lease clock o before).1
  unfolding new_operation
  start_found-Evolved batch actor op lease clock none fresh =
      inserted (new_operation batch actor op lease clock.db_now before.next_id) refl fresh unchanged
  start_found-Evolved batch actor op lease clock (some row) fresh =
      start_existing-Evolved batch actor op lease clock row

  completed-Evolved :
      (o : Option (OperationRow P) × SyncDb P W)
      → Evolved before o.1
      → Evolved before (completed_result o).1
  completed-Evolved (none, db) e = e
  completed-Evolved (some r, db) e = e

  finish-Evolved :
      (id : ℕ) (outcome : ApplyOutcome) (db : SyncDb P W)
      → Evolved before db
      → Evolved before (finish id outcome db).1
  unfolding finish complete_operation
  finish-Evolved id outcome db e =
      completed-Evolved (complete_operation id (completion_of outcome) db)
        (updated _ _ (complete-Gentle id (completion_of outcome)) e)

  after_apply-Evolved :
      (id : ℕ) (o : Option ApplyOutcome × W) (db : SyncDb P W)
      → Evolved before db
      → Evolved before (after_apply id o db).1
  after_apply-Evolved id (none, w) db e = e
  after_apply-Evolved id (some outcome, w) db e =
      finish-Evolved id outcome (record db { world = w }) e

  after_dependencies-Evolved :
      (apply : Apply P W) (actor : ActorScope) (op : ReplayOperation P) (id : ℕ) (o : Option Text)
      (db : SyncDb P W)
      → Evolved before db
      → Evolved before (after_dependencies apply actor op id o db).1
  after_dependencies-Evolved apply actor op id none db e =
      after_apply-Evolved id (apply actor op db.world) db e
  after_dependencies-Evolved apply actor op id (some m) db e = finish-Evolved id _ db e

  after_start-Evolved :
      (apply : Apply P W) (actor : ActorScope) (op : ReplayOperation P) (prior : Prior)
      (o : Started P × SyncDb P W)
      → Evolved before o.1
      → Evolved before (after_start apply actor op prior o).1
  after_start-Evolved apply actor op prior (s, db) e = elim (Bool-cases s.started) [
    | inl began ↦ rw began (after_dependencies-Evolved apply actor op s.row.id _ db e)
    | inr answered ↦ rw answered e
  ]

  pub execute_operation-Evolved :
      (apply : Apply P W) (batch : ℕ) (actor : ActorScope) (op : ReplayOperation P) (lease : ℕ)
      (clock : Clock) (prior : Prior)
      → Evolved before (execute_operation apply batch actor op lease clock prior before).1
  unfolding execute_operation try_start_operation find_operation_by_identity
  execute_operation-Evolved apply batch actor op lease clock prior =
      after_start-Evolved apply actor op prior
        (try_start_operation batch actor op lease clock before)
        (start_found-Evolved batch actor op lease clock _ refl)

  pub committed-Evolved :
      (o : Result SyncFailure ReplayResult × SyncDb P W)
      → Evolved before o.1
      → Evolved before (commit_or_rollback before o).1
  committed-Evolved (ok r, db) e = e
  committed-Evolved (err x, db) e = unchanged

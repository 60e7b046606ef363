-- ===== src/PlatformSystem/PushSync/Execution/Frame.antt =====
-- What an operation of a batch leaves alone: the rows of the batches (pushSync/api/router.ts).
use modula_backend.Common.{
  ℕ, ◌&&◌, ◌≡◌, refl, ◌∙◌, Option, none, some, Text, ◌==◌, Bool-cases, inl, inr,
}
use modula_backend.PlatformSystem.PushSync.Rows.{
  OperationRow, SyncDb, Clock, ActorScope, ReplayOperation,
}
use modula_backend.PlatformSystem.PushSync.Repository.{
  Started, find_operation_by_identity, try_start_operation, complete_operation, start_found,
  start_existing, reclaim_expired, after_reclaim, is_in_progress, expired,
}
use modula_backend.PlatformSystem.PushSync.Execution.{
  Apply, Prior, ApplyOutcome, execute_operation, after_start, after_dependencies, after_apply,
  finish, completed_result, completion_of,
}

module _ {P W : Type 0} where
  after_reclaim_keeps :
      (actor : ActorScope) (op : Text) (existing : OperationRow P) (o : Option (OperationRow P))
      (db : SyncDb P W)
      → (after_reclaim actor op existing o db).1.batches ≡ db.batches
  after_reclaim_keeps actor op existing none db = refl
  after_reclaim_keeps actor op existing (some r) db = refl

  start_existing_keeps :
      (batch : ℕ) (actor : ActorScope) (op : ReplayOperation P) (lease : ℕ) (clock : Clock)
      (row : OperationRow P) (db : SyncDb P W)
      → (start_existing batch actor op lease clock row db).1.batches ≡ db.batches
  unfolding start_existing reclaim_expired
  start_existing_keeps batch actor op lease clock row db =
      elim (Bool-cases (row.payload_hash == op.payload_hash)) [
        | inr differs ↦ rw differs refl
        | inl same ↦
            elim (Bool-cases
              (is_in_progress row.status && expired clock.app_now row.lease_expires_at)) [
                | inl late ↦ rw (same, late) (after_reclaim_keeps actor op.client_op_id row _ _)
                | inr fresh ↦ rw (same, fresh) refl
              ]
      ]

  start_found_keeps :
      (batch : ℕ) (actor : ActorScope) (op : ReplayOperation P) (lease : ℕ) (clock : Clock)
      (o : Option (OperationRow P)) (db : SyncDb P W)
      → (start_found batch actor op lease clock o db).1.batches ≡ db.batches
  start_found_keeps batch actor op lease clock none db = refl
  start_found_keeps batch actor op lease clock (some row) db =
      start_existing_keeps batch actor op lease clock row db

  completed_keeps :
      (o : Option (OperationRow P) × SyncDb P W) → (completed_result o).1.batches ≡ o.1.batches
  completed_keeps (none, db) = refl
  completed_keeps (some r, db) = refl

  finish_keeps :
      (id : ℕ) (outcome : ApplyOutcome) (db : SyncDb P W)
      → (finish id outcome db).1.batches ≡ db.batches
  unfolding finish complete_operation
  finish_keeps id outcome db = completed_keeps (complete_operation id (completion_of outcome) db)

  after_apply_keeps :
      (id : ℕ) (o : Option ApplyOutcome × W) (db : SyncDb P W)
      → (after_apply id o db).1.batches ≡ db.batches
  after_apply_keeps id (none, w) db = refl
  after_apply_keeps id (some outcome, w) db = finish_keeps id outcome (record db { world = w })

  after_dependencies_keeps :
      (apply : Apply P W) (actor : ActorScope) (op : ReplayOperation P) (id : ℕ) (o : Option Text)
      (db : SyncDb P W)
      → (after_dependencies apply actor op id o db).1.batches ≡ db.batches
  after_dependencies_keeps apply actor op id none db =
      after_apply_keeps id (apply actor op db.world) db
  after_dependencies_keeps apply actor op id (some m) db = finish_keeps id _ db

  after_start_keeps :
      (apply : Apply P W) (actor : ActorScope) (op : ReplayOperation P) (prior : Prior)
      (o : Started P × SyncDb P W)
      → (after_start apply actor op prior o).1.batches ≡ o.1.batches
  after_start_keeps apply actor op prior (s, db) = elim (Bool-cases s.started) [
    | inl began ↦ rw began (after_dependencies_keeps apply actor op s.row.id _ db)
    | inr answered ↦ rw answered refl
  ]

  pub execute_operation_keeps :
      (apply : Apply P W) (batch : ℕ) (actor : ActorScope) (op : ReplayOperation P) (lease : ℕ)
      (clock : Clock) (prior : Prior) (db : SyncDb P W)
      → (execute_operation apply batch actor op lease clock prior db).1.batches ≡ db.batches
  unfolding execute_operation try_start_operation
  execute_operation_keeps apply batch actor op lease clock prior db =
      after_start_keeps apply actor op prior (try_start_operation batch actor op lease clock db)
      ∙ start_found_keeps batch actor op lease clock
          (find_operation_by_identity actor.tenant_id actor.branch_id op.client_op_id db) db

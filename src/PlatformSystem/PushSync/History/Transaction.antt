-- ===== src/PlatformSystem/PushSync/History/Transaction.antt =====
-- The transaction that started an operation leaves its row as its answer (pushSync/api/router.ts).
use modula_backend.Common.{
  ℕ, Bool, true, false, ◌&&◌, ◌≡◌, refl, sym, ap, ◌∙◌, Option, none, some, Text, ◌==◌, eq_refl,
  if◌then◌else◌, ok, Bool-cases, inl, inr, find_row, update_rows, ok-ne-err,
}
use modula_backend.PlatformSystem.PushSync.Rows.{
  OperationRow, SyncDb, Clock, ActorScope, ReplayOperation, ReplayResult,
}
use modula_backend.PlatformSystem.PushSync.Repository.{
  Started, has_identity, find_operation_by_identity, try_start_operation, start_found,
  start_existing, reclaim_expired, after_reclaim, is_in_progress, expired, returning, may_reclaim,
  reclaim_row, new_operation,
}
use modula_backend.PlatformSystem.PushSync.Execution.{
  Apply, Prior, ApplyOutcome, execute_operation, after_start, after_dependencies, after_apply,
  resolve_dependency_failure, answer_unstarted,
}
use modula_backend.PlatformSystem.PushSync.History.{Descending}
use modula_backend.PlatformSystem.PushSync.History.Evolves.{Evolves-Descending}
use modula_backend.PlatformSystem.PushSync.History.Statements.{start_found-Evolved}
use modula_backend.PlatformSystem.PushSync.History.Owned.{
  Remembered, Owns, reclaims_own, answered-Owns, reclaimed-Owns, finish-Remembered,
}

module _ {P W : Type 0} (actor : ActorScope) (op : ReplayOperation P) where
  abbrev OwnsOperation : Started P × SyncDb P W → Type 0
  OwnsOperation o = Owns actor.tenant_id actor.branch_id op.client_op_id op.payload_hash o

  abbrev RemembersOperation : ReplayResult → SyncDb P W → Type 0
  RemembersOperation r db =
      Remembered actor.tenant_id actor.branch_id op.client_op_id op.payload_hash r db

  after_reclaim-Owns :
      (batch lease now : ℕ) (n : ℕ) (row : OperationRow P) (o : Option (OperationRow P))
      (db : SyncDb P W)
      → Descending n db.operations
      → find_row (has_identity actor.tenant_id actor.branch_id op.client_op_id) db.operations
        ≡ some row
      → find_row (may_reclaim row.id op.payload_hash now) db.operations ≡ o
      → OwnsOperation (
          after_reclaim actor op.client_op_id row
            (returning (reclaim_row batch op lease now) o)
            (record db {
              operations =
                  update_rows
                    (may_reclaim row.id op.payload_hash now)
                    (reclaim_row batch op lease now)
                    db.operations;
            }))
  unfolding has_identity
  after_reclaim-Owns batch lease now n row none db d found picked =
      answered-Owns actor.tenant_id actor.branch_id op.client_op_id op.payload_hash false
        (find_operation_by_identity actor.tenant_id actor.branch_id op.client_op_id (record db {
          operations =
              update_rows (may_reclaim row.id op.payload_hash now) (reclaim_row batch op lease now)
                db.operations;
        }))
        row
        (record db {
          operations =
              update_rows (may_reclaim row.id op.payload_hash now) (reclaim_row batch op lease now)
                db.operations;
        })
  after_reclaim-Owns batch lease now n row (some s) db d found picked =
      reclaimed-Owns actor.tenant_id actor.branch_id op.client_op_id op.payload_hash
        (may_reclaim row.id op.payload_hash now) (reclaim_row batch op lease now) n row s db
        (λ x. refl) (λ x h. reclaims_own row.id op.payload_hash now x h) d found picked

  start_existing-Owns :
      (batch lease : ℕ) (clock : Clock) (n : ℕ) (row : OperationRow P) (db : SyncDb P W)
      → Descending n db.operations
      → find_row (has_identity actor.tenant_id actor.branch_id op.client_op_id) db.operations
        ≡ some row
      → OwnsOperation (start_existing batch actor op lease clock row db)
  unfolding start_existing reclaim_expired
  start_existing-Owns batch lease clock n row db d found =
      elim (Bool-cases (row.payload_hash == op.payload_hash)) [
        | inr differs ↦ rw differs (
            answered-Owns actor.tenant_id actor.branch_id op.client_op_id op.payload_hash true none
              row db)
        | inl same ↦
            elim (Bool-cases
              (is_in_progress row.status && expired clock.app_now row.lease_expires_at)) [
                | inl late ↦
                    rw (same, late)
                      (after_reclaim-Owns batch lease clock.db_now n row _ db d found refl)
                | inr fresh ↦
                    rw (same, fresh)
                      (answered-Owns actor.tenant_id actor.branch_id op.client_op_id op.payload_hash
                        false none row db)
              ]
      ]

  start_found-Owns :
      (batch lease : ℕ) (clock : Clock) (n : ℕ) (o : Option (OperationRow P)) (db : SyncDb P W)
      → Descending n db.operations
      → find_row (has_identity actor.tenant_id actor.branch_id op.client_op_id) db.operations ≡ o
      → OwnsOperation (start_found batch actor op lease clock o db)
  unfolding new_operation has_identity
  start_found-Owns batch lease clock n none db d found = record {
    found =
        λ _. rw (eq_refl actor.tenant_id, eq_refl actor.branch_id, eq_refl op.client_op_id) refl;
    same_payload = λ _. refl;
  }
  start_found-Owns batch lease clock n (some row) db d found =
      start_existing-Owns batch lease clock n row db d found

  after_apply-Remembered :
      (n : ℕ) (row : OperationRow P) (o : Option ApplyOutcome × W) (db : SyncDb P W)
      (r : ReplayResult)
      → Descending n db.operations
      → find_row (has_identity actor.tenant_id actor.branch_id op.client_op_id) db.operations
        ≡ some row
      → row.payload_hash ≡ op.payload_hash
      → (after_apply row.id o db).0 ≡ ok r
      → RemembersOperation r (after_apply row.id o db).1
  after_apply-Remembered n row (none, w) db r d found payload h = absurd (ok-ne-err (sym h))
  after_apply-Remembered n row (some outcome, w) db r d found payload h =
      finish-Remembered actor.tenant_id actor.branch_id op.client_op_id op.payload_hash row.id
        outcome n row (record db { world = w }) r d found refl payload h

  after_dependencies-Remembered :
      (apply : Apply P W) (n : ℕ) (row : OperationRow P) (o : Option Text) (db : SyncDb P W)
      (r : ReplayResult)
      → Descending n db.operations
      → find_row (has_identity actor.tenant_id actor.branch_id op.client_op_id) db.operations
        ≡ some row
      → row.payload_hash ≡ op.payload_hash
      → (after_dependencies apply actor op row.id o db).0 ≡ ok r
      → RemembersOperation r (after_dependencies apply actor op row.id o db).1
  after_dependencies-Remembered apply n row none db r d found payload h =
      after_apply-Remembered n row (apply actor op db.world) db r d found payload h
  after_dependencies-Remembered apply n row (some m) db r d found payload h =
      finish-Remembered actor.tenant_id actor.branch_id op.client_op_id op.payload_hash row.id _ n
        row db r d found refl payload h

  after_start-Remembered :
      (apply : Apply P W) (prior : Prior) (n : ℕ) (o : Started P × SyncDb P W) (r : ReplayResult)
      → Descending n o.1.operations
      → OwnsOperation o
      → o.0.started ≡ true
      → (after_start apply actor op prior o).0 ≡ ok r
      → RemembersOperation r (after_start apply actor op prior o).1
  after_start-Remembered apply prior n (s, db) r d owns began h = rw began (
      after_dependencies-Remembered apply n s.row
        (resolve_dependency_failure op.tenant_id op.branch_id prior db op.depends_on) db r d
        (owns.found began) (owns.same_payload began)
        (ap
            (λ (b : Bool).
              (if b
                then after_dependencies apply actor op s.row.id
                    (resolve_dependency_failure op.tenant_id op.branch_id prior db op.depends_on) db
                else (ok (answer_unstarted op s), db)).0)
            (sym began)
          ∙ h))

  -- What a transaction that started its operation answers is what its row says from then on.
  pub execute_operation-Remembered :
      (apply : Apply P W) (batch lease : ℕ) (clock : Clock) (prior : Prior) (db : SyncDb P W)
      (r : ReplayResult)
      → Descending db.next_id db.operations
      → (try_start_operation batch actor op lease clock db).0.started ≡ true
      → (execute_operation apply batch actor op lease clock prior db).0 ≡ ok r
      → RemembersOperation r (execute_operation apply batch actor op lease clock prior db).1
  unfolding execute_operation try_start_operation find_operation_by_identity
  execute_operation-Remembered apply batch lease clock prior db r d began h =
      let o =
        find_row (has_identity actor.tenant_id actor.branch_id op.client_op_id) db.operations in
      after_start-Remembered apply prior (start_found batch actor op lease clock o db).1.next_id
        (start_found batch actor op lease clock o db) r
        (Evolves-Descending (start_found-Evolved db batch actor op lease clock o refl) d)
        (start_found-Owns batch lease clock db.next_id o db d refl) began h

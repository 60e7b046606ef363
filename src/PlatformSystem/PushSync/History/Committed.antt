-- ===== src/PlatformSystem/PushSync/History/Committed.antt =====
-- The rows of v0_offline_sync_operations that other transactions can see (pushSync/api/router.ts runs an operation in one
-- transaction).
use modula_backend.Common.{
  ℕ, Bool, true, false, ◌≡◌, refl, sym, ap, ◌∙◌, Option, none, some, List, [], ◌∷◌, Text, ◌==◌, eqb,
  if◌then◌else◌, Result, ok, err, Bool-cases, inl, inr, arith, find_row, find_row_here,
  find_row_skip, update_rows, All, ok-ne-err, ◌⊎◌,
}
use modula_backend.Platform.Transactions.{with_transaction, commit_or_rollback}
use modula_backend.PlatformSystem.PushSync.Rows.{
  OperationRow, SyncDb, Clock, ActorScope, ReplayOperation, ReplayResult,
}
use modula_backend.PlatformSystem.PushSync.Repository.{
  Started, Completion, create_batch, finalize_batch, find_operation_by_identity,
  try_start_operation, complete_operation, start_found, start_existing, is_in_progress,
  may_complete, complete_row, new_operation, has_identity,
}
use modula_backend.PlatformSystem.PushSync.Execution.{
  Apply, Prior, ApplyOutcome, outcome_applied, outcome_failed, SyncFailure, execute_operation,
  after_start, after_dependencies, after_apply, finish, completed_result, completion_of,
}
use modula_backend.PlatformSystem.PushSync.Replay.{run_operation}
use modula_backend.PlatformSystem.PushSync.History.Requests.{
  Step, opens, runs, closes, Later, at_once, after,
}

abbrev pub AllSettled : {P : Type 0} → List (OperationRow P) → Type 0
AllSettled rows = All (λ r. is_in_progress r.status ≡ false) rows

module _ {P : Type 0} where
  found_settled :
      (p : OperationRow P → Bool) (rows : List (OperationRow P)) (r : OperationRow P)
      → AllSettled rows
      → find_row p rows ≡ some r
      → is_in_progress r.status ≡ false
  found_settled p [] r a h = cc
  found_settled p (x ∷ rows) r a h = elim (Bool-cases (p x)) [
    | inl here ↦
        let e : ◌≡◌ {A = Option (OperationRow P)} (some x) (some r) =
          sym (find_row_here p x rows here) ∙ h in
        let same : x ≡ r = cc in ap (λ y. is_in_progress y.status) (sym same) ∙ a.0
    | inr skip ↦ found_settled p rows r a.1 (sym (find_row_skip p x rows skip) ∙ h)
  ]

  -- The rows are settled, but those that a completion of `id` is going to settle.
  abbrev SettledBut : ℕ → List (OperationRow P) → Type 0
  SettledBut id rows =
      All (λ r. (is_in_progress r.status ≡ false) ⊎ (may_complete id r ≡ true)) rows

  settles :
      (c : Completion) (id : ℕ) (x : OperationRow P)
      → is_in_progress c.status ≡ false
      → (is_in_progress x.status ≡ false) ⊎ (may_complete id x ≡ true)
      → is_in_progress (if may_complete id x then complete_row c x else x).status ≡ false
  unfolding may_complete
  settles c id x closed (inl h) = rw h (ground arith)
  settles c id x closed (inr h) = rw h closed

  completed-AllSettled :
      (c : Completion) (id : ℕ) (rows : List (OperationRow P))
      → is_in_progress c.status ≡ false
      → SettledBut id rows
      → AllSettled (update_rows (may_complete id) (complete_row c) rows)
  completed-AllSettled c id [] closed a = tt
  completed-AllSettled c id (x ∷ rows) closed a =
      (settles c id x closed a.0, completed-AllSettled c id rows closed a.1)

  but_none : (id : ℕ) (rows : List (OperationRow P)) → AllSettled rows → SettledBut id rows
  but_none id [] a = tt
  but_none id (x ∷ rows) a = (inl a.0, but_none id rows a.1)

outcome_settles : (o : ApplyOutcome) → is_in_progress (completion_of o).status ≡ false
outcome_settles (outcome_applied ref) = refl
outcome_settles (outcome_failed code message) = refl

module _ {P W : Type 0} where
  -- What a start leaves for its completion.
  pub record Startable (o : Started P × SyncDb P W) : Type 0 where
    pub begun : o.0.started ≡ true → SettledBut o.0.row.id o.1.operations
    pub answered : o.0.started ≡ false → AllSettled o.1.operations

  start_found-Startable :
      (batch : ℕ) (actor : ActorScope) (op : ReplayOperation P) (lease : ℕ) (clock : Clock)
      (o : Option (OperationRow P)) (db : SyncDb P W)
      → find_row (has_identity actor.tenant_id actor.branch_id op.client_op_id) db.operations ≡ o
      → AllSettled db.operations
      → Startable (start_found batch actor op lease clock o db)
  unfolding new_operation may_complete start_existing
  start_found-Startable batch actor op lease clock none db found a = record {
    begun = λ _. (
      inr (let same : eqb db.next_id db.next_id ≡ true = ground arith in rw same refl),
      but_none db.next_id db.operations a,
    );
    answered = λ h. cc;
  }
  start_found-Startable batch actor op lease clock (some row) db found a =
      let settled = found_settled _ db.operations row a found in
      elim (Bool-cases (row.payload_hash == op.payload_hash)) [
        | inr differs ↦ rw differs (record { begun = λ h. cc; answered = λ _. a })
        | inl same ↦ rw (same, settled) (record { begun = λ h. cc; answered = λ _. a })
      ]

  -- An operation that ends without an error leaves settled rows.
  abbrev SettlesAll : Result SyncFailure ReplayResult × SyncDb P W → Type 0
  SettlesAll o = (r : ReplayResult) → o.0 ≡ ok r → AllSettled o.1.operations

  completed_keeps :
      (o : Option (OperationRow P) × SyncDb P W)
      → AllSettled o.1.operations
      → SettlesAll (completed_result o)
  completed_keeps (none, db) a r h = a
  completed_keeps (some row, db) a r h = a

  finish-SettlesAll :
      (id : ℕ) (outcome : ApplyOutcome) (db : SyncDb P W)
      → SettledBut id db.operations
      → SettlesAll (finish id outcome db)
  unfolding finish complete_operation
  finish-SettlesAll id outcome db a =
      completed_keeps (complete_operation id (completion_of outcome) db)
        (completed-AllSettled (completion_of outcome) id db.operations (outcome_settles outcome) a)

  after_apply-SettlesAll :
      (id : ℕ) (o : Option ApplyOutcome × W) (db : SyncDb P W)
      → SettledBut id db.operations
      → SettlesAll (after_apply id o db)
  after_apply-SettlesAll id (none, w) db a r h = absurd (ok-ne-err (sym h))
  after_apply-SettlesAll id (some outcome, w) db a r h =
      finish-SettlesAll id outcome (record db { world = w }) a r h

  after_dependencies-SettlesAll :
      (apply : Apply P W) (actor : ActorScope) (op : ReplayOperation P) (id : ℕ) (o : Option Text)
      (db : SyncDb P W)
      → SettledBut id db.operations
      → SettlesAll (after_dependencies apply actor op id o db)
  after_dependencies-SettlesAll apply actor op id none db a =
      after_apply-SettlesAll id (apply actor op db.world) db a
  after_dependencies-SettlesAll apply actor op id (some m) db a = finish-SettlesAll id _ db a

  after_start-SettlesAll :
      (apply : Apply P W) (actor : ActorScope) (op : ReplayOperation P) (prior : Prior)
      (o : Started P × SyncDb P W)
      → Startable o
      → SettlesAll (after_start apply actor op prior o)
  after_start-SettlesAll apply actor op prior (s, db) st = elim (Bool-cases s.started) [
    | inl began ↦
        rw began (after_dependencies-SettlesAll apply actor op s.row.id _ db (st.begun began))
    | inr done ↦ rw done (λ r h. st.answered done)
  ]

  execute_operation-SettlesAll :
      (apply : Apply P W) (batch : ℕ) (actor : ActorScope) (op : ReplayOperation P) (lease : ℕ)
      (clock : Clock) (prior : Prior) (db : SyncDb P W)
      → AllSettled db.operations
      → SettlesAll (execute_operation apply batch actor op lease clock prior db)
  unfolding execute_operation try_start_operation find_operation_by_identity
  execute_operation-SettlesAll apply batch actor op lease clock prior db a =
      after_start-SettlesAll apply actor op prior
        (try_start_operation batch actor op lease clock db)
        (start_found-Startable batch actor op lease clock _ db refl a)

  committed-AllSettled :
      (db : SyncDb P W) (o : Result SyncFailure ReplayResult × SyncDb P W)
      → AllSettled db.operations
      → SettlesAll o
      → AllSettled (commit_or_rollback db o).1.operations
  committed-AllSettled db (ok r, after_) a k = k r refl
  committed-AllSettled db (err e, after_) a k = a

  Step-AllSettled :
      {db db' : SyncDb P W} → Step db db' → AllSettled db.operations → AllSettled db'.operations
  unfolding create_batch finalize_batch run_operation with_transaction
  Step-AllSettled (opens input) a = a
  Step-AllSettled {db} (runs run op prior) a = committed-AllSettled db _ a (
      execute_operation-SettlesAll run.apply run.batch run.actor op run.lease_ms
        (run.clock op.index) prior db a)
  Step-AllSettled (closes id input) a = a

  -- Whatever requests are served, from a table of settled rows only tables of settled rows are reached: a
  -- transaction that starts an operation completes it or is rolled back.
  pub Later-AllSettled :
      {db db' : SyncDb P W} → Later db db' → AllSettled db.operations → AllSettled db'.operations
  Later-AllSettled at_once a = a
  Later-AllSettled (after l s) a = Step-AllSettled s (Later-AllSettled l a)

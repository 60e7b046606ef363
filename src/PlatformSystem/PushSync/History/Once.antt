-- ===== src/PlatformSystem/PushSync/History/Once.antt =====
-- An operation of pushSync/api/router.ts is applied once: what its first transaction answers is what every later one
-- answers, over the transactions of any requests in between.
use modula_backend.Common.{
  ℕ, true, false, ◌≡◌, refl, sym, ap, subst, ◌∙◌, none, some, ◌==◌, eq_iff, Result, ok, err,
  Bool-cases, inl, inr, find_row, ok-ne-err, ok-injective,
}
use modula_backend.Platform.Transactions.{with_transaction, commit_or_rollback}
use modula_backend.PlatformSystem.PushSync.Rows.{
  SyncDb, Clock, ActorScope, ReplayOperation, ReplayResult, was_applied, was_duplicate, has_failed,
}
use modula_backend.PlatformSystem.PushSync.Repository.{
  Started, has_identity, find_operation_by_identity, try_start_operation,
}
use modula_backend.PlatformSystem.PushSync.Resolution.{
  map_existing_operation, map_persisted_operation, success,
}
use modula_backend.PlatformSystem.PushSync.Execution.{
  Apply, Prior, SyncFailure, execute_operation, after_start, answer_unstarted,
}
use modula_backend.PlatformSystem.PushSync.Execution.Settled.{
  execute_operation-answer_held, answer_held,
}
use modula_backend.PlatformSystem.PushSync.Replay.{Run, run_operation}
use modula_backend.PlatformSystem.PushSync.History.{Descending}
use modula_backend.PlatformSystem.PushSync.History.Evolves.{Evolves-settled}
use modula_backend.PlatformSystem.PushSync.History.Owned.{Remembered}
use modula_backend.PlatformSystem.PushSync.History.Transaction.{execute_operation-Remembered}
use modula_backend.PlatformSystem.PushSync.History.Requests.{Later, Later-Evolved}
use modula_backend.PlatformSystem.PushSync.History.Answers.{
  answer_same, answer_applied, answer_failed, unstarted_not_applied,
}

-- The same operation, sent again.
pub record Resent {P W : Type 0} (run : Run P W) (op : ReplayOperation P) (run' : Run P W)
    (op' : ReplayOperation P) : Type 0 where
  pub tenant : run'.actor.tenant_id ≡ run.actor.tenant_id
  pub branch : run'.actor.branch_id ≡ run.actor.branch_id
  pub client_op : op'.client_op_id ≡ op.client_op_id
  pub payload : op'.payload_hash ≡ op.payload_hash

module _ {P W : Type 0} where
  committed_ok :
      (db : SyncDb P W) (o : Result SyncFailure ReplayResult × SyncDb P W) (r : ReplayResult)
      → (commit_or_rollback db o).0 ≡ ok r
      → commit_or_rollback db o ≡ o
  committed_ok db (ok r', db') r h = refl
  committed_ok db (err e, db') r h = absurd (ok-ne-err (sym h))

  -- A row that answers is found later by the operation that is sent again.
  answers_again :
      (run run' : Run P W) (op op' : ReplayOperation P) (prior' : Prior) (db later : SyncDb P W)
      (r : ReplayResult)
      → (m : Remembered run.actor.tenant_id run.actor.branch_id op.client_op_id op.payload_hash r
          db)
      → Later db later
      → Resent run op run' op'
      → run_operation run' op' prior' later ≡ (ok (map_existing_operation op' m.row), later)
  unfolding run_operation with_transaction find_operation_by_identity answer_held
  answers_again run run' op op' prior' db later r m l same =
      let found =
        Evolves-settled run.actor.tenant_id run.actor.branch_id op.client_op_id m.row m.settled
          (Later-Evolved l) m.found in
      let found' : find_row
            (has_identity run'.actor.tenant_id run'.actor.branch_id op'.client_op_id)
            later.operations
          ≡ some m.row =
        ap (λ t. find_row (has_identity t run'.actor.branch_id op'.client_op_id) later.operations)
          same.tenant
        ∙ (ap (λ b. find_row (has_identity run.actor.tenant_id b op'.client_op_id) later.operations)
              same.branch
            ∙ (ap
                  (λ c.
                    find_row (has_identity run.actor.tenant_id run.actor.branch_id c)
                      later.operations)
                  same.client_op
                ∙ found)) in
      let equal : (m.row.payload_hash == op'.payload_hash) ≡ true =
        (eq_iff m.row.payload_hash op'.payload_hash).1 (m.same_payload ∙ sym same.payload) in
      ap (λ o. commit_or_rollback later o)
        (execute_operation-answer_held run'.apply run'.batch run'.actor op' run'.lease_ms
          (run'.clock op'.index) prior' later m.row found' (inr (inl m.settled)))
      ∙ ap (λ a. (ok a, later)) (answer_same op' m.row equal)

  unstarted_answer :
      (apply : Apply P W) (actor : ActorScope) (op : ReplayOperation P) (prior : Prior)
      (s : Started P) (db : SyncDb P W)
      → s.started ≡ false
      → (after_start apply actor op prior (s, db)).0 ≡ ok (answer_unstarted op s)
  unstarted_answer apply actor op prior s db answered = rw answered refl

  -- Only an operation that its transaction started answers APPLIED.
  applied_started :
      (apply : Apply P W) (actor : ActorScope) (op : ReplayOperation P) (prior : Prior)
      (o : Started P × SyncDb P W) (r : ReplayResult)
      → (after_start apply actor op prior o).0 ≡ ok r
      → r.status ≡ was_applied
      → o.0.started ≡ true
  applied_started apply actor op prior (s, db) r h won = elim (Bool-cases s.started) [
    | inl began ↦ began
    | inr answered ↦
        let e = ok-injective (sym (unstarted_answer apply actor op prior s db answered) ∙ h) in
        absurd (unstarted_not_applied op s (ap (λ z. z.status) e ∙ won))
  ]

  fresh_started :
      (batch : ℕ) (actor : ActorScope) (op : ReplayOperation P) (lease : ℕ) (clock : Clock)
      (db : SyncDb P W)
      → find_operation_by_identity actor.tenant_id actor.branch_id op.client_op_id db ≡ none
      → (try_start_operation batch actor op lease clock db).0.started ≡ true
  unfolding try_start_operation
  fresh_started batch actor op lease clock db h = rw h refl

module _ {P W : Type 0} (run : Run P W) (op : ReplayOperation P) (prior : Prior) (db : SyncDb P W)
    (r : ReplayResult) where
  -- The committed transaction is the executed one.
  run-Remembered :
      Descending db.next_id db.operations
      → (try_start_operation run.batch run.actor op run.lease_ms (run.clock op.index) db).0.started
        ≡ true
      → (run_operation run op prior db).0 ≡ ok r
      → Remembered run.actor.tenant_id run.actor.branch_id op.client_op_id op.payload_hash r
          (run_operation run op prior db).1
  unfolding run_operation with_transaction
  run-Remembered d began h =
      let o =
        execute_operation run.apply run.batch run.actor op run.lease_ms (run.clock op.index) prior
          db in
      let same = committed_ok db o r h in
      subst
        (λ (z : Result SyncFailure ReplayResult × SyncDb P W).
          Remembered run.actor.tenant_id run.actor.branch_id op.client_op_id op.payload_hash r z.1)
        (sym same)
        (execute_operation-Remembered run.actor op run.apply run.batch run.lease_ms
          (run.clock op.index) prior db r d began
          (ap (λ (z : Result SyncFailure ReplayResult × SyncDb P W). z.0) (sym same) ∙ h))

  run_begins :
      (run_operation run op prior db).0 ≡ ok r
      → r.status ≡ was_applied
      → (try_start_operation run.batch run.actor op run.lease_ms (run.clock op.index) db).0.started
        ≡ true
  unfolding run_operation with_transaction execute_operation
  run_begins h won =
      let o =
        execute_operation run.apply run.batch run.actor op run.lease_ms (run.clock op.index) prior
          db in
      applied_started run.apply run.actor op prior
        (try_start_operation run.batch run.actor op run.lease_ms (run.clock op.index) db) r
        (ap (λ (z : Result SyncFailure ReplayResult × SyncDb P W). z.0)
            (sym (committed_ok db o r h))
          ∙ h)
        won

  module _ (run' : Run P W) (op' : ReplayOperation P) (prior' : Prior) (later : SyncDb P W) where
    -- An operation that a transaction has applied is applied once: whatever requests are served in between,
    -- the same identity and payload hash, in any batch and with any clock, lease and handler, answers
    -- DUPLICATE with the reference of the first result and leaves the whole database as it is. The
    -- condition on the ids, unique and below the next one, is kept by every transaction.
    pub applied_once :
        Descending db.next_id db.operations
        → (run_operation run op prior db).0 ≡ ok r
        → r.status ≡ was_applied
        → Later (run_operation run op prior db).1 later
        → Resent run op run' op'
        → run_operation run' op' prior' later ≡ (
          ok (success op'.index op'.client_op_id op'.operation_type was_duplicate r.result_ref_id),
          later,
        )
    unfolding map_existing_operation map_persisted_operation
    applied_once d h won l same =
        let m = run-Remembered d (run_begins h won) h in
        answers_again run run' op op' prior' (run_operation run op prior db).1 later r m l same
        ∙ ap (λ a. (ok a, later))
            (answer_applied op' m.row m.row.status (ap (λ z. z.status) (sym m.answers) ∙ won)
              ∙ ap
                  (λ z.
                    success op'.index op'.client_op_id op'.operation_type was_duplicate
                      z.result_ref_id)
                  (sym m.answers))

    -- An operation that failed when it was first sent, with no row for it before, fails forever: whatever
    -- requests are served in between, the same identity and payload hash answers the first code, message,
    -- reference and resolution under its own index and type, and leaves the whole database as it is. The
    -- ids of the rows are unique and below the next one before.
    pub failed_forever :
        Descending db.next_id db.operations
        → find_operation_by_identity run.actor.tenant_id run.actor.branch_id op.client_op_id db
          ≡ none
        → (run_operation run op prior db).0 ≡ ok r
        → r.status ≡ has_failed
        → Later (run_operation run op prior db).1 later
        → Resent run op run' op'
        → run_operation run' op' prior' later ≡ (
          ok (record r {
            index = op'.index;
            client_op_id = op'.client_op_id;
            operation_type = op'.operation_type;
          }),
          later,
        )
    unfolding map_existing_operation map_persisted_operation
    failed_forever d fresh h lost l same =
        let m =
          run-Remembered d
            (fresh_started run.batch run.actor op run.lease_ms (run.clock op.index) db fresh) h in
        answers_again run run' op op' prior' (run_operation run op prior db).1 later r m l same
        ∙ ap (λ a. (ok a, later))
            (answer_failed op' m.row m.row.status m.settled
                (ap (λ z. z.status) (sym m.answers) ∙ lost)
              ∙ ap
                  (λ (z : ReplayResult). record z {
                    index = op'.index;
                    client_op_id = op'.client_op_id;
                    operation_type = op'.operation_type;
                  })
                  (sym m.answers))

-- ===== src/PlatformSystem/PushSync/Replay/Recorded.antt =====
-- A replay request ends with an answer and with the row of its batch (pushSync/api/router.ts).
use modula_backend.Common.{
  ℕ, Bool, true, false, ◌≡◌, refl, sym, ◌∙◌, some, List, [], ◌∷◌, Result, ok, err, is_some, eqb,
  arith, length, eq_refl, ok-ne-err,
}
use modula_backend.Platform.Transactions.{with_transaction, commit_or_rollback}
use modula_backend.PlatformSystem.PushSync.Rows.{
  BatchRow, SyncDb, Clock, ActorScope, ReplayOperation, ReplayResult,
}
use modula_backend.PlatformSystem.PushSync.Repository.{
  create_batch, finalize_batch, get_batch, new_batch, finalize_row, BatchInput, FinalizeInput,
}
use modula_backend.PlatformSystem.PushSync.Execution.{Apply, Prior, SyncFailure}
use modula_backend.PlatformSystem.PushSync.Execution.Frame.{execute_operation_keeps}
use modula_backend.PlatformSystem.PushSync.Execution.Total.{execute_operation-Answers}
use modula_backend.PlatformSystem.PushSync.Replay.{
  Progress, no_progress, Run, run_operation, go_on, after_operation, replay_operations,
  finalization, finalized, handle_replay,
}
use modula_backend.PlatformSystem.PushSync.Replay.Counters.{
  Sound, replay_operations-Sound, Finalized, finalization-Finalized,
}

-- The loop ends with its variables, and the rows of the batches are those before.
pub record Completes {P W : Type 0} (before : List BatchRow)
    (o : Result SyncFailure Progress × SyncDb P W) : Type 0 where
  pub progress : Progress
  pub returns : o.0 ≡ ok progress
  pub keeps : o.1.batches ≡ before

abbrev pub TotalApply : {P W : Type 0} → Apply P W → Type 0
TotalApply {P} {W} apply =
    (actor : ActorScope) (op : ReplayOperation P) (w : W) → is_some (apply actor op w).0 ≡ true

module _ {P W : Type 0} where
  committed_keeps :
      (db : SyncDb P W) (o : Result SyncFailure ReplayResult × SyncDb P W)
      → o.1.batches ≡ db.batches
      → (commit_or_rollback db o).1.batches ≡ db.batches
  committed_keeps db (ok r, after) h = h
  committed_keeps db (err e, after) h = refl

  committed :
      (db : SyncDb P W) (o : Result SyncFailure ReplayResult × SyncDb P W) (r : ReplayResult)
      → o.0 ≡ ok r
      → (commit_or_rollback db o).0 ≡ ok r
  committed db (ok r', after) r h = h
  committed db (err e, after) r h = h

  module _ (run : Run P W) (total : TotalApply run.apply) where
    run_operation-Answers :
        (op : ReplayOperation P) (prior : Prior) (db : SyncDb P W)
        → (r : ReplayResult) × ((run_operation run op prior db).0 ≡ ok r)
    unfolding run_operation with_transaction
    run_operation-Answers op prior db =
        let (r, e) =
          execute_operation-Answers run.apply total run.batch run.actor op run.lease_ms
            (run.clock op.index) prior db in
        (r, committed db _ r e)

    run_operation_keeps :
        (op : ReplayOperation P) (prior : Prior) (db : SyncDb P W)
        → (run_operation run op prior db).1.batches ≡ db.batches
    unfolding run_operation with_transaction
    run_operation_keeps op prior db = committed_keeps db _ (
        execute_operation_keeps run.apply run.batch run.actor op run.lease_ms (run.clock op.index)
          prior db)

    go_on-Completes :
        (ops : List (ReplayOperation P)) (c : Bool) (p : Progress) (db : SyncDb P W)
        (before : List BatchRow)
        → db.batches ≡ before
        → ((q : Progress) (d : SyncDb P W)
            → d.batches ≡ before
            → Completes before (replay_operations run ops q d))
        → Completes before (go_on (λ q d. replay_operations run ops q d) c p db)
    go_on-Completes ops true p db before same ih = record {
      progress = p;
      returns = refl;
      keeps = same;
    }
    go_on-Completes ops false p db before same ih = ih p db same

    after_operation-Completes :
        (op : ReplayOperation P) (ops : List (ReplayOperation P)) (p : Progress)
        (o : Result SyncFailure ReplayResult × SyncDb P W) (r : ReplayResult)
        (before : List BatchRow)
        → o.0 ≡ ok r
        → o.1.batches ≡ before
        → ((q : Progress) (d : SyncDb P W)
            → d.batches ≡ before
            → Completes before (replay_operations run ops q d))
        → Completes before (after_operation run.halt op (λ q d. replay_operations run ops q d) p o)
    after_operation-Completes op ops p (err e, db) r before h same ih = absurd (ok-ne-err (sym h))
    after_operation-Completes op ops p (ok r', db) r before h same ih =
        go_on-Completes ops _ _ db before same ih

    replay_operations-Completes :
        (ops : List (ReplayOperation P)) (p : Progress) (db : SyncDb P W) (before : List BatchRow)
        → db.batches ≡ before
        → Completes before (replay_operations run ops p db)
    unfolding replay_operations
    replay_operations-Completes [] p db before same = record {
      progress = p;
      returns = refl;
      keeps = same;
    }
    replay_operations-Completes (op ∷ ops) p db before same =
        let (r, e) = run_operation-Answers op p.prior db in
        after_operation-Completes op ops p _ r before e (run_operation_keeps op p.prior db ∙ same)
          (λ q d k. replay_operations-Completes ops q d before k)

abbrev batch_input : ActorScope → Bool → BatchInput
batch_input actor halt = record {
  tenant_id = actor.tenant_id;
  branch_id = actor.branch_id;
  submitted_by_account_id = some actor.account_id;
  halt_on_failure = halt;
}

-- What a replay request answers, and what it leaves in the row of its batch.
pub record Recorded {P W : Type 0} (actor : ActorScope) (halt : Bool) (n batch : ℕ)
    (o : Result SyncFailure Progress × SyncDb P W) : Type 0 where
  pub progress : Progress
  pub returns : o.0 ≡ ok progress
  pub sound : Sound halt n progress
  pub finalized_well : Finalized n (finalization progress)
  pub stored :
      get_batch actor.tenant_id actor.branch_id batch o.1
      ≡ some (finalize_row (finalization progress) (new_batch (batch_input actor halt) batch))

module _ {P W : Type 0} where
  finalize_batch-get_batch :
      (actor : ActorScope) (halt : Bool) (id : ℕ) (input : FinalizeInput) (db : SyncDb P W)
      (rest : List BatchRow)
      → db.batches ≡ new_batch (batch_input actor halt) id ∷ rest
      → get_batch actor.tenant_id actor.branch_id id (finalize_batch id input db)
        ≡ some (finalize_row input (new_batch (batch_input actor halt) id))
  unfolding get_batch finalize_batch
  finalize_batch-get_batch actor halt id input db rest h =
      let same : eqb id id ≡ true = ground arith in
      rw (h, same, same, eq_refl actor.tenant_id, eq_refl actor.branch_id) refl

  finalized-Recorded :
      (actor : ActorScope) (halt : Bool) (n batch : ℕ) (rest : List BatchRow)
      (o : Result SyncFailure Progress × SyncDb P W)
      → Completes (new_batch (batch_input actor halt) batch ∷ rest) o
      → ((p : Progress) → o.0 ≡ ok p → Sound halt n p)
      → Recorded actor halt n batch (finalized batch o)
  finalized-Recorded actor halt n batch rest (err e, db) c s = absurd (ok-ne-err (sym c.returns))
  finalized-Recorded actor halt n batch rest (ok p, db) c s = record {
    progress = p;
    returns = refl;
    sound = s p refl;
    finalized_well = finalization-Finalized halt n p (s p refl);
    stored = finalize_batch-get_batch actor halt batch (finalization p) db rest c.keeps;
  }

  -- A replay request whose operations are applied without a refused statement always answers, whatever
  -- rows there are: its counts are those of the results by status and add up to their number, at most
  -- the number of operations sent; either every operation has its result, no place of a stop is set and,
  -- where the batch halts on failure, none has failed, or the batch halts on failure, exactly one has
  -- failed and the place of the stop is set; and the row of the batch is found by its id with these
  -- counts, COMPLETED exactly when no operation failed and FAILED exactly when some failed and none
  -- succeeded.
  pub handle_replay-Recorded :
      (apply : Apply P W)
      → TotalApply apply
      → (actor : ActorScope) (lease_ms : ℕ) (halt : Bool) (clock : ℕ → Clock)
        (ops : List (ReplayOperation P)) (db : SyncDb P W)
      → Recorded actor halt
          (length ops)
          db.next_id
          (handle_replay apply actor lease_ms halt clock ops db)
  unfolding handle_replay create_batch
  handle_replay-Recorded apply total actor lease_ms halt clock ops db =
      let run : Run P W = record {
        apply = apply;
        actor = actor;
        batch = db.next_id;
        lease_ms = lease_ms;
        halt = halt;
        clock = clock;
      } in
      let created = (create_batch (batch_input actor halt) db).1 in
      finalized-Recorded actor halt (length ops) db.next_id db.batches
        (replay_operations run ops no_progress created)
        (replay_operations-Completes run total ops no_progress created _ refl)
        (λ p h. replay_operations-Sound run ops p created h)

-- ===== src/PlatformSystem/PushSync/History/Requests.antt =====
-- The transactions of many requests (pushSync/api/router.ts), and what they do to the operation rows.
use modula_backend.Common.{ℕ}
use modula_backend.Platform.Transactions.{with_transaction}
use modula_backend.PlatformSystem.PushSync.Rows.{SyncDb, ReplayOperation}
use modula_backend.PlatformSystem.PushSync.Repository.{
  BatchInput, FinalizeInput, create_batch, finalize_batch,
}
use modula_backend.PlatformSystem.PushSync.Execution.{Prior}
use modula_backend.PlatformSystem.PushSync.Replay.{Run, run_operation}
use modula_backend.PlatformSystem.PushSync.History.{Descending}
use modula_backend.PlatformSystem.PushSync.History.Evolves.{
  unchanged, counted, Evolves-Descending, Evolves-trans,
}
use modula_backend.PlatformSystem.PushSync.History.Statements.{
  Evolved, execute_operation-Evolved, committed-Evolved,
}

-- One transaction of a request: the batch is opened, an operation is run, or the batch is closed.
pub data Step {P W : Type 0} (db : SyncDb P W) : SyncDb P W → Type 0 where
  opens : (input : BatchInput) → Step db (create_batch input db).1
  runs :
      (run : Run P W) (op : ReplayOperation P) (prior : Prior)
      → Step db (run_operation run op prior db).1
  closes : (id : ℕ) (input : FinalizeInput) → Step db (finalize_batch id input db)

-- The transactions of any requests, one after another, in any order.
pub data Later {P W : Type 0} (db : SyncDb P W) : SyncDb P W → Type 0 where
  at_once : Later db db
  after : {mid last : SyncDb P W} → Later db mid → Step mid last → Later db last

module _ {P W : Type 0} where
  run_operation-Evolved :
      (run : Run P W) (op : ReplayOperation P) (prior : Prior) (db : SyncDb P W)
      → Evolved db (run_operation run op prior db).1
  unfolding run_operation with_transaction
  run_operation-Evolved run op prior db = committed-Evolved db _ (
      execute_operation-Evolved db run.apply run.batch run.actor op run.lease_ms
        (run.clock op.index) prior)

  Step-Evolved : {db db' : SyncDb P W} → Step db db' → Evolved db db'
  unfolding create_batch finalize_batch
  Step-Evolved (opens input) = counted unchanged
  Step-Evolved {db} (runs run op prior) = run_operation-Evolved run op prior db
  Step-Evolved (closes id input) = unchanged

  -- Whatever requests are served, and in whatever order their transactions run, the rows of the operations
  -- only change by inserting a row under the next id for an identity that has none, and by updates of
  -- rows in progress that keep their ids and identities.
  pub Later-Evolved : {db db' : SyncDb P W} → Later db db' → Evolved db db'
  Later-Evolved at_once = unchanged
  Later-Evolved (after l s) = Evolves-trans (Later-Evolved l) (Step-Evolved s)

  -- So ids stay unique and below the next id.
  pub Later-Descending :
      {db db' : SyncDb P W}
      → Later db db'
      → Descending db.next_id db.operations
      → Descending db'.next_id db'.operations
  Later-Descending l d = Evolves-Descending (Later-Evolved l) d

-- ===== src/Platform/Idempotency/Cases.antt =====
-- The ways through `execute` (platform/idempotency/service.ts), as equations.
use modula_backend.Common.{◌≡◌, Option, none, some, Text, ok, err, Action}
use modula_backend.Platform.Idempotency.Records.{
  IdempotencyRecordRow, Db, StartInput, find_existing, new_record, insert_record, try_start,
}
use modula_backend.Platform.Idempotency.Service.{
  Response, Failure, ExecuteInput, settle, apply_and_complete, completed_or_thrown, answer_existing,
  run_started, start_input, execute,
}

-- The row that a start finds.
abbrev pub existing : {W : Type 0} → StartInput → Db W → Option IdempotencyRecordRow
existing s db = find_existing s.scope_fingerprint s.action_key s.idempotency_key db.records

module _ {W : Type 0} where
  pub try_start_free :
      (s : StartInput) (db : Db W)
      → existing s db ≡ none
      → try_start s db ≡ (some (new_record s db.next_id), insert_record s db)
  unfolding try_start
  try_start_free s db free = rw free

  pub try_start_taken :
      (s : StartInput) (db : Db W) {r : IdempotencyRecordRow}
      → existing s db ≡ some r
      → try_start s db ≡ (none, db)
  unfolding try_start
  try_start_taken s db taken = rw taken

  module _ {E : Type 0} (s : StartInput) (refusal : Option E) (handler : Action W E Response)
      (db : Db W) where
    pub run_started_free :
        existing s db ≡ none
        → run_started s refusal handler db
          ≡ settle
              (new_record s db.next_id)
              (insert_record s db)
              (completed_or_thrown refusal (handler db.world))
    unfolding run_started apply_and_complete insert_record
    run_started_free free = rw (try_start_free s db free, run_started)

    pub run_started_taken :
        {r : IdempotencyRecordRow}
        → existing s db ≡ some r
        → run_started s refusal handler db ≡ (answer_existing s.payload_hash (some r), db)
    unfolding run_started
    run_started_taken taken = rw (try_start_taken s db taken, run_started) (rw taken)

  module _ {P E : Type 0} (hash_payload : P → Text) (input : ExecuteInput P) (refusal : Option E)
      (handler : Action W E Response) (db : Db W) where
    pub execute_accepted :
        {s : StartInput}
        → start_input {E = E} hash_payload input ≡ ok s
        → execute hash_payload input refusal handler db ≡ run_started s refusal handler db
    unfolding execute
    execute_accepted accepted = rw (accepted, execute)

    pub execute_refused :
        {failure : Failure E}
        → start_input hash_payload input ≡ err failure
        → execute hash_payload input refusal handler db ≡ (err failure, db)
    unfolding execute
    execute_refused refused = rw (refused, execute)

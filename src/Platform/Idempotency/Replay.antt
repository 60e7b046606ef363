-- ===== src/Platform/Idempotency/Replay.antt =====
-- What a retry of a command meets (platform/idempotency/service.ts).
use modula_backend.Common.{refl}
use modula_backend.Common.{
  err-injective, ok-ne-err, suc, List, ◌∷◌, ◌∙◌, ap, sym, ◌≡◌, ◌≢◌, Option, none, some, Text,
  Result, ok, err, Action, Option-cases, Result-cases, inl, inr, arith, true, eq_refl, ℕ, eq_iff,
}
use modula_backend.Json.{Json}
use modula_backend.Platform.Idempotency.Records.{
  IdempotencyRecordRow, Db, StartInput, find_existing, new_record, insert_record, complete,
  has_identity, set_response, clear_processing, processing,
}
use modula_backend.Platform.Idempotency.Service.{
  Response, Reply, ExecuteInput, settle, completed_or_thrown, answer_existing, run_started,
  start_input, execute, idempotency_error, idempotency_conflict, idempotency_in_progress, thrown,
}
use modula_backend.Platform.Idempotency.Cases.{
  existing, run_started_free, run_started_taken, execute_accepted, execute_refused,
}
use modula_backend.Platform.Idempotency.Invariant.{IsValid, clear_processing_unused}

abbrev as_replayed : Reply → Reply
as_replayed reply = record reply { replayed = true }

module _ {W : Type 0} (E : Type 0) (s : StartInput) (db : Db W) where
  -- After a successful handler the key finds the completed row.
  existing-settle_ok :
      (response : Response) (world : W)
      → existing s
          (settle {E = E} (new_record s db.next_id) (insert_record s db) (ok response, world)).1
        ≡ some (set_response response.status_code response.body (new_record s db.next_id))
  unfolding settle insert_record new_record complete find_existing has_identity
  existing-settle_ok response world =
      ground (arith, eq_refl s.scope_fingerprint, eq_refl s.action_key, eq_refl s.idempotency_key)

  answer_completed :
      (response : Response) (world : W) (reply : Reply)
      → (settle {E = E} (new_record s db.next_id) (insert_record s db) (ok response, world)).0
        ≡ ok reply
      → reply.body ≢ Json.null
      → answer_existing {E = E} s.payload_hash
          (some (set_response response.status_code response.body (new_record s db.next_id)))
        ≡ ok (as_replayed reply)
  unfolding answer_existing new_record settle
  answer_completed response world reply h ne = ground (arith, eq_refl s.payload_hash)

  settle_replays :
      (refusal : Option E) (handler : Action W E Response) (outcome : Result E Response × W)
      (reply : Reply)
      → (settle (new_record s db.next_id) (insert_record s db) outcome).0 ≡ ok reply
      → reply.body ≢ Json.null
      → run_started s refusal handler
          (settle (new_record s db.next_id) (insert_record s db) outcome).1
        ≡ (
          ok (as_replayed reply),
          (settle (new_record s db.next_id) (insert_record s db) outcome).1,
        )
  settle_replays refusal handler (ok response, world) reply h ne =
      run_started_taken s refusal handler
        (settle (new_record s db.next_id) (insert_record s db) (ok response, world)).1
        (existing-settle_ok response world)
      ∙ ap
          (λ a. (
            a,
            (settle {E = E} (new_record s db.next_id) (insert_record s db) (ok response, world)).1,
          ))
          (answer_completed response world reply h ne)
  settle_replays refusal handler (err error, world) reply h ne = unfold settle in cc

  answer_existing-ok_replayed :
      (hash : Text) (o : Option IdempotencyRecordRow) (reply : Reply)
      → answer_existing {E = E} hash o ≡ ok reply
      → as_replayed reply ≡ reply
  unfolding answer_existing
  answer_existing-ok_replayed hash o reply h = ground arith

  run_started-replays :
      (refusal refusal' : Option E) (handler handler' : Action W E Response) (reply : Reply)
      → (run_started s refusal handler db).0 ≡ ok reply
      → reply.body ≢ Json.null
      → run_started s refusal' handler' (run_started s refusal handler db).1
        ≡ (ok (as_replayed reply), (run_started s refusal handler db).1)
  run_started-replays refusal refusal' handler handler' reply h ne =
      elim (Option-cases (existing s db)) [
        | inl free ↦ rw (run_started_free s refusal handler db free) (
            settle_replays refusal' handler' (completed_or_thrown refusal (handler db.world)) reply
              (rw (run_started_free s refusal handler db free) at h) ne)
        | inr (r, taken) ↦
            let h' : answer_existing s.payload_hash (some r) ≡ ok reply =
              rw (run_started_taken s refusal handler db taken) at h in
            rw (run_started_taken s refusal handler db taken) (
              run_started_taken s refusal' handler' db taken
              ∙ ap (λ a. (a, db))
                  (h' ∙ ap ok (sym (answer_existing-ok_replayed s.payload_hash (some r) reply h'))))
      ]

-- A call that succeeded with a body other than `null`, repeated with the same input and any handler,
-- answers the same status and body marked as replayed; the second handler is not run, and the
-- database stays as the first call left it.
pub execute-replays :
    {W P E : Type 0} (hash_payload : P → Text) (input : ExecuteInput P)
    (refusal refusal' : Option E) (handler handler' : Action W E Response) (db : Db W)
    (reply : Reply)
    → (execute hash_payload input refusal handler db).0 ≡ ok reply
    → reply.body ≢ Json.null
    → execute hash_payload input refusal' handler' (execute hash_payload input refusal handler db).1
      ≡ (ok (as_replayed reply), (execute hash_payload input refusal handler db).1)
execute-replays {E} hash_payload input refusal refusal' handler handler' db reply h ne =
    elim (Result-cases (start_input {E = E} hash_payload input)) [
      | inl (s, accepted) ↦
          let first = execute_accepted hash_payload input refusal handler db accepted in
          rw first (
            execute_accepted hash_payload input refusal' handler'
              (run_started s refusal handler db).1 accepted
            ∙ run_started-replays E s db refusal refusal' handler handler' reply (rw first at h) ne)
      | inr (failure, refused) ↦ absurd (
          ok-ne-err (sym (rw (execute_refused hash_payload input refusal handler db refused) at h)))
    ]

start_input-ne-thrown :
    {P E : Type 0} (hash_payload : P → Text) (input : ExecuteInput P) (error : E)
    → start_input hash_payload input ≢ err (thrown error)
unfolding start_input
start_input-ne-thrown hash_payload input error h = ground arith

answer_existing-ne-thrown :
    {E : Type 0} (hash : Text) (o : Option IdempotencyRecordRow) (error : E)
    → answer_existing hash o ≢ err (thrown error)
unfolding answer_existing
answer_existing-ne-thrown hash o error h = ground arith

clear_processing_head :
    (s : StartInput) (n : ℕ) (rows : List IdempotencyRecordRow)
    → clear_processing n (new_record s n ∷ rows) ≡ clear_processing n rows
unfolding clear_processing new_record
clear_processing_head s n rows = ground arith

module _ {W E : Type 0} (s : StartInput) (db : Db W) (error : E) (v : IsValid db) where
  settle-thrown :
      (outcome : Result E Response × W)
      → (settle (new_record s db.next_id) (insert_record s db) outcome).0 ≡ err (thrown error)
      → (settle (new_record s db.next_id) (insert_record s db) outcome).1
        ≡ record db { next_id = suc db.next_id; world = outcome.1 }
  unfolding settle insert_record new_record
  settle-thrown (ok response, world) h = cc
  settle-thrown (err e, world) h = ground (
    arith,
    clear_processing_unused db.next_id db.records v.ids_below,
    clear_processing_head s db.next_id db.records,
  )

  completed_world :
      (refusal : Option E) (o : Result E Response × W) → (completed_or_thrown refusal o).1 ≡ o.1
  completed_world none o = refl
  completed_world (some e) (ok response, world) = refl
  completed_world (some e) (err e', world) = refl

  run_started-thrown :
      (refusal : Option E) (handler : Action W E Response)
      → (run_started s refusal handler db).0 ≡ err (thrown error)
      → (run_started s refusal handler db).1
        ≡ record db { next_id = suc db.next_id; world = (handler db.world).1 }
  run_started-thrown refusal handler h = elim (Option-cases (existing s db)) [
    | inl free ↦
        let e = run_started_free s refusal handler db free in
        rw e (
          settle-thrown (completed_or_thrown refusal (handler db.world)) (rw e at h)
          ∙ ap (λ w. record db { next_id = suc db.next_id; world = w })
              (completed_world refusal (handler db.world)))
    | inr (r, taken) ↦ absurd (
        answer_existing-ne-thrown s.payload_hash (some r) error
          (rw (run_started_taken s refusal handler db taken) at h))
  ]

-- In a valid table, a call that throws an error of its handler, or of the update that records the handler's response,
-- leaves every record as it was, so that the key is free for another try; what the handler wrote
-- elsewhere is kept, also where the handler had succeeded.
pub execute-thrown :
    {W P E : Type 0} (hash_payload : P → Text) (input : ExecuteInput P) (refusal : Option E)
    (handler : Action W E Response) (db : Db W) (error : E)
    → IsValid db
    → (execute hash_payload input refusal handler db).0 ≡ err (thrown error)
    → (execute hash_payload input refusal handler db).1
      ≡ record db { next_id = suc db.next_id; world = (handler db.world).1 }
execute-thrown {E} hash_payload input refusal handler db error v h =
    elim (Result-cases (start_input {E = E} hash_payload input)) [
      | inl (s, accepted) ↦
          let e = execute_accepted hash_payload input refusal handler db accepted in
          rw e (run_started-thrown s db error v refusal handler (rw e at h))
      | inr (failure, refused) ↦ absurd (
          start_input-ne-thrown hash_payload input error (
            refused
            ∙ ap err (
                err-injective
                  (rw (execute_refused hash_payload input refusal handler db refused) at h))))
    ]

answer_existing_conflict :
    {E : Type 0} (hash : Text) (r : IdempotencyRecordRow)
    → r.payload_hash ≢ hash
    → answer_existing {E = E} hash (some r) ≡ err (idempotency_error 409 idempotency_conflict)
unfolding answer_existing
answer_existing_conflict hash r ne = ground (arith, eq_iff r.payload_hash hash)

answer_existing_busy :
    {E : Type 0} (hash : Text) (r : IdempotencyRecordRow)
    → r.payload_hash ≡ hash
    → r.status ≡ processing
    → answer_existing {E = E} hash (some r) ≡ err (idempotency_error 409 idempotency_in_progress)
unfolding answer_existing
answer_existing_busy hash r e busy = ground (arith, eq_iff r.payload_hash hash)

-- Where a record has the scope, action, key and payload hash of an accepted call and is still
-- processing, the call ends in the in-progress error, the handler is not run, and the database is
-- unchanged.
pub execute_busy :
    {W P E : Type 0} (hash_payload : P → Text) (input : ExecuteInput P) (refusal : Option E)
    (handler : Action W E Response) (db : Db W) (s : StartInput) (r : IdempotencyRecordRow)
    → start_input {E = E} hash_payload input ≡ ok s
    → existing s db ≡ some r
    → r.payload_hash ≡ s.payload_hash
    → r.status ≡ processing
    → execute hash_payload input refusal handler db
      ≡ (err (idempotency_error 409 idempotency_in_progress), db)
execute_busy hash_payload input refusal handler db s r accepted taken same busy =
    execute_accepted hash_payload input refusal handler db accepted
    ∙ run_started_taken s refusal handler db taken
    ∙ ap (λ a. (a, db)) (answer_existing_busy s.payload_hash r same busy)

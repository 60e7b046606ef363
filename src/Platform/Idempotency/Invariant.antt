-- ===== src/Platform/Idempotency/Invariant.antt =====
-- The invariant of the table of idempotency records (platform/idempotency/repository.ts).
use modula_backend.Common.{Option}
use modula_backend.Common.{
  ℕ, suc, ◌<◌, ◌≡◌, refl, inl, inr, none, List, [], ◌∷◌, Text, All, eq_refl, Result, ok, err,
  Action, Option-cases, Result-cases, arith, true,
}
use modula_backend.Json.{Json}
use modula_backend.Platform.Idempotency.Records.{
  IdempotencyRecordRow, Db, StartInput, has_identity, find_existing, new_record, complete,
  clear_processing, insert_record,
}
use modula_backend.Platform.Idempotency.Service.{completed_or_thrown}
use modula_backend.Platform.Idempotency.Service.{
  Response, ExecuteInput, settle, run_started, start_input, execute,
}
use modula_backend.Platform.Idempotency.Cases.{
  existing, run_started_free, run_started_taken, execute_accepted, execute_refused,
}

-- Every id was given out before `n`.
abbrev pub AllBelow : ℕ → List IdempotencyRecordRow → Type 0
AllBelow n = All (λ r. r.id < n)

-- No two rows have the same scope, action and key.
abbrev pub HasUniqueKeys : List IdempotencyRecordRow → Type 0
HasUniqueKeys [] = Unit
HasUniqueKeys (r ∷ rows) =
    (find_existing r.scope_fingerprint r.action_key r.idempotency_key rows ≡ none)
    × HasUniqueKeys rows

pub record IsValid {W : Type 0} (db : Db W) : Type 0 where
  pub ids_below : AllBelow db.next_id db.records
  pub keys_unique : HasUniqueKeys db.records

pub complete-AllBelow :
    (n i code : ℕ) (body : Json) (rows : List IdempotencyRecordRow)
    → AllBelow n rows
    → AllBelow n (complete i code body rows)
unfolding complete
complete-AllBelow n i code body [] h = tt
complete-AllBelow n i code body (r ∷ rows) h =
    ground (arith, complete-AllBelow n i code body rows h.1)

pub clear_processing-AllBelow :
    (n i : ℕ) (rows : List IdempotencyRecordRow)
    → AllBelow n rows
    → AllBelow n (clear_processing i rows)
unfolding clear_processing
clear_processing-AllBelow n i [] h = tt
clear_processing-AllBelow n i (r ∷ rows) h = ground (arith, clear_processing-AllBelow n i rows h.1)

-- An id that was never given out matches no row.
pub clear_processing_unused :
    (n : ℕ) (rows : List IdempotencyRecordRow) → AllBelow n rows → clear_processing n rows ≡ rows
unfolding clear_processing
clear_processing_unused n [] h = refl
clear_processing_unused n (r ∷ rows) h = ground (arith, clear_processing_unused n rows h.1)

pub complete_unused :
    (n code : ℕ) (body : Json) (rows : List IdempotencyRecordRow)
    → AllBelow n rows
    → complete n code body rows ≡ rows
unfolding complete
complete_unused n code body [] h = refl
complete_unused n code body (r ∷ rows) h = ground (arith, complete_unused n code body rows h.1)

pub has_identity_self :
    (r : IdempotencyRecordRow)
    → has_identity r.scope_fingerprint r.action_key r.idempotency_key r ≡ true
unfolding has_identity
has_identity_self r =
    ground (arith, eq_refl r.scope_fingerprint, eq_refl r.action_key, eq_refl r.idempotency_key)

find_existing-complete-none :
    (f a k : Text) (i code : ℕ) (body : Json) (rows : List IdempotencyRecordRow)
    → find_existing f a k rows ≡ none
    → find_existing f a k (complete i code body rows) ≡ none
unfolding find_existing complete has_identity
find_existing-complete-none f a k i code body [] h = refl
find_existing-complete-none f a k i code body (r ∷ rows) h =
    ground (arith, find_existing-complete-none f a k i code body rows)

find_existing-clear_none :
    (f a k : Text) (i : ℕ) (rows : List IdempotencyRecordRow)
    → find_existing f a k rows ≡ none
    → find_existing f a k (clear_processing i rows) ≡ none
unfolding find_existing clear_processing
find_existing-clear_none f a k i [] h = refl
find_existing-clear_none f a k i (r ∷ rows) h =
    ground (arith, find_existing-clear_none f a k i rows)

complete-HasUniqueKeys :
    (i code : ℕ) (body : Json) (rows : List IdempotencyRecordRow)
    → HasUniqueKeys rows
    → HasUniqueKeys (complete i code body rows)
unfolding complete
complete-HasUniqueKeys i code body [] h = tt
complete-HasUniqueKeys i code body (r ∷ rows) h = ground (
  arith,
  find_existing-complete-none r.scope_fingerprint r.action_key r.idempotency_key i code body rows
      h.0,
  complete-HasUniqueKeys i code body rows h.1,
)

clear_processing-HasUniqueKeys :
    (i : ℕ) (rows : List IdempotencyRecordRow)
    → HasUniqueKeys rows
    → HasUniqueKeys (clear_processing i rows)
unfolding clear_processing
clear_processing-HasUniqueKeys i [] h = tt
clear_processing-HasUniqueKeys i (r ∷ rows) h = ground (
  arith,
  find_existing-clear_none r.scope_fingerprint r.action_key r.idempotency_key i rows h.0,
  clear_processing-HasUniqueKeys i rows h.1,
)

pub AllBelow-suc :
    (n : ℕ) (rows : List IdempotencyRecordRow) → AllBelow n rows → AllBelow (suc n) rows
AllBelow-suc n [] h = tt
AllBelow-suc n (r ∷ rows) h = (omega arith, AllBelow-suc n rows h.1)

module _ {W : Type 0} where
  insert_record-IsValid :
      (s : StartInput) (db : Db W)
      → existing s db ≡ none
      → IsValid db
      → IsValid (insert_record s db)
  unfolding insert_record new_record
  insert_record-IsValid s db free v = record {
    ids_below = (omega arith, AllBelow-suc db.next_id db.records v.ids_below);
    keys_unique = (free, v.keys_unique);
  }

  settle-IsValid :
      {E : Type 0} (row : IdempotencyRecordRow) (db : Db W) (outcome : Result E Response × W)
      → IsValid db
      → IsValid (settle row db outcome).1
  unfolding settle
  settle-IsValid row db (ok response, world) v = record {
    ids_below =
        complete-AllBelow db.next_id row.id response.status_code response.body db.records
          v.ids_below;
    keys_unique =
        complete-HasUniqueKeys row.id response.status_code response.body db.records v.keys_unique;
  }
  settle-IsValid row db (err error, world) v = record {
    ids_below = clear_processing-AllBelow db.next_id row.id db.records v.ids_below;
    keys_unique = clear_processing-HasUniqueKeys row.id db.records v.keys_unique;
  }

  run_started-IsValid :
      {E : Type 0} (s : StartInput) (refusal : Option E) (handler : Action W E Response) (db : Db W)
      → IsValid db
      → IsValid (run_started s refusal handler db).1
  run_started-IsValid s refusal handler db v = elim (Option-cases (existing s db)) [
    | inl free ↦ rw (run_started_free s refusal handler db free) (
        settle-IsValid (new_record s db.next_id) (insert_record s db)
          (completed_or_thrown refusal (handler db.world)) (insert_record-IsValid s db free v))
    | inr (r, taken) ↦ rw (run_started_taken s refusal handler db taken) v
  ]

  -- In a valid table every call of `execute`, however it ends, leaves
  -- ids that were given out before and at most one row for each scope, action and key.
  pub execute-IsValid :
      {P E : Type 0} (hash_payload : P → Text) (input : ExecuteInput P) (refusal : Option E)
      (handler : Action W E Response) (db : Db W)
      → IsValid db
      → IsValid (execute hash_payload input refusal handler db).1
  execute-IsValid {E} hash_payload input refusal handler db v =
      elim (Result-cases (start_input {E = E} hash_payload input)) [
        | inl (s, accepted) ↦
            rw (execute_accepted hash_payload input refusal handler db accepted)
              (run_started-IsValid s refusal handler db v)
        | inr (failure, refused) ↦
            rw (execute_refused hash_payload input refusal handler db refused) v
      ]

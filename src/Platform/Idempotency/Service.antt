-- ===== src/Platform/Idempotency/Service.antt =====
-- platform/idempotency/service.ts: a command is run at most once for each idempotency key. The
-- handler is any action on the rest of the database; SHA-256 is `hash_payload`'s parameter.
use modula_backend.Common.{
  ℕ, Bool, true, false, ◌&&◌, Option, none, some, [], ◌++◌, Text, codes, ◌==◌, ltb, not, length,
  is_empty, trim, if◌then◌else◌, Result, ok, err, Action, or_error, error_if,
}
use modula_backend.Common.Steps.{◌>>=◌, ◌>>◌}
use modula_backend.Json.{Json, bool, obj, end, field}
use modula_backend.Platform.Idempotency.Records.{
  IdempotencyRecordRow, Db, StartInput, is_completed, find_existing, try_start, complete,
  clear_processing,
}

pub data Code : Type 0 where
  idempotency_key_required tenant_context_required branch_context_required : Code
  idempotency_in_progress idempotency_conflict : Code

pub data Failure (E : Type 0) : Type 0 where
  idempotency_error : ℕ → Code → Failure E
  thrown : E → Failure E

pub data IdempotencyScope : Type 0 where
  tenant branch : IdempotencyScope

abbrev pub is_branch : IdempotencyScope → Bool
is_branch tenant = false
is_branch branch = true

pub record Response : Type 0 where
  pub status_code : ℕ
  pub body : Json

pub record Reply : Type 0 where
  pub status_code : ℕ
  pub body : Json
  pub replayed : Bool

-- `String(value ?? "")`.
abbrev pub text_or_empty : Option Text → Text
text_or_empty none = []
text_or_empty (some t) = t

unfoldable pub normalize_idempotency_key : Option Text → Option Text
normalize_idempotency_key value =
    let normalized = trim (text_or_empty value) in
    if is_empty normalized
    then none
    else if ltb 120 (length normalized)
    then none
    else some normalized

unfoldable pub build_scope_fingerprint : Text → Option Text → Text
build_scope_fingerprint t none = t ++ (codes "::" ++ codes "-")
build_scope_fingerprint t (some b) = t ++ (codes "::" ++ b)

-- `{ success: true }`.
abbrev pub default_body : Json
default_body = obj (field (codes "success") (bool true) end)

abbrev pub status_or : Option ℕ → ℕ
status_or none = 200
status_or (some n) = n

-- A stored JSON `null` reads back as `null`, so it too gives the default.
abbrev pub body_or : Option Json → Json
body_or none = default_body
body_or (some Json.null) = default_body
body_or (some j) = j

pub record ExecuteInput (P : Type 0) : Type 0 where
  pub idempotency_key : Option Text
  pub action_key : Text
  pub scope : IdempotencyScope
  pub tenant_id : Option Text
  pub branch_id : Option Text
  pub payload : P

-- The checks of `execute` before the database is asked, in their order.
unfoldable pub start_input :
    {P E : Type 0} → (P → Text) → ExecuteInput P → Result (Failure E) StartInput
start_input hash_payload input = do
  key ←
      or_error (normalize_idempotency_key input.idempotency_key)
        (idempotency_error 422 idempotency_key_required)
  let tenant_id = trim (text_or_empty input.tenant_id)
  error_if (is_empty tenant_id) (idempotency_error 403 tenant_context_required)
  let branch_id =
      if is_branch input.scope then some (trim (text_or_empty input.branch_id)) else none
  error_if (is_branch input.scope && is_empty (text_or_empty branch_id))
      (idempotency_error 403 branch_context_required)
  ok (record {
    scope_fingerprint = build_scope_fingerprint tenant_id branch_id;
    tenant_id = tenant_id;
    branch_id = branch_id;
    action_key = input.action_key;
    idempotency_key = key;
    payload_hash = hash_payload input.payload;
  })

-- What `execute` answers when the key was not started now.
unfoldable pub answer_existing :
    {E : Type 0} → Text → Option IdempotencyRecordRow → Result (Failure E) Reply
answer_existing payload_hash none = err (idempotency_error 409 idempotency_in_progress)
answer_existing payload_hash (some existing) =
    if not (existing.payload_hash == payload_hash)
    then err (idempotency_error 409 idempotency_conflict)
    else if not (is_completed existing.status)
    then err (idempotency_error 409 idempotency_in_progress)
    else ok (record {
      status_code = status_or existing.response_status;
      body = body_or existing.response_body;
      replayed = true;
    })

module _ {W E : Type 0} where
  -- How the `try` of `applyAndComplete` ends, the refusal being the error with which the database refuses the
  -- update of `complete`, if it does: the world is then what the handler left.
  abbrev pub completed_or_thrown : Option E → Result E Response × W → Result E Response × W
  completed_or_thrown none outcome = outcome
  completed_or_thrown (some error) (ok response, world) = (err error, world)
  completed_or_thrown (some error) (err thrown_before, world) = (err thrown_before, world)

  -- What the `try` leaves: the response is recorded, or, from the `catch`, the started row is deleted.
  unfoldable pub settle :
      IdempotencyRecordRow → Db W → Result E Response × W → Result (Failure E) Reply × Db W
  unfolding complete clear_processing
  settle row db (ok response, world) = (
    ok (record { status_code = response.status_code; body = response.body; replayed = false }),
    record db {
      records = complete row.id response.status_code response.body db.records;
      world = world;
    },
  )
  settle row db (err error, world) = (
    err (thrown error),
    record db { records = clear_processing row.id db.records; world = world },
  )

  unfoldable pub apply_and_complete :
      IdempotencyRecordRow → Option E → Action W E Response → Action (Db W) (Failure E) Reply
  apply_and_complete row refusal handler db =
      settle row db (completed_or_thrown refusal (handler db.world))

  unfoldable pub after_start :
      StartInput
      → Option E
      → Action W E Response
      → Option IdempotencyRecordRow × Db W
      → Result (Failure E) Reply × Db W
  after_start input refusal handler (some row, db) = apply_and_complete row refusal handler db
  after_start input refusal handler (none, db) = (
    answer_existing input.payload_hash
        (find_existing input.scope_fingerprint input.action_key input.idempotency_key db.records),
    db,
  )

  unfoldable pub run_started :
      StartInput → Option E → Action W E Response → Action (Db W) (Failure E) Reply
  unfolding after_start
  run_started input refusal handler db = after_start input refusal handler (try_start input db)

  unfoldable pub execute :
      {P : Type 0}
      → (P → Text)
      → ExecuteInput P
      → Option E
      → Action W E Response
      → Action (Db W) (Failure E) Reply
  execute hash_payload input refusal handler db = elim (start_input hash_payload input) [
    | ok start ↦ run_started start refusal handler db
    | err failure ↦ (err failure, db)
  ]

-- ===== src/Platform/Idempotency/Records.antt =====
-- platform/idempotency/repository.ts: the table of idempotency records.
-- The columns created_at and updated_at are left out: no code reads them. Row ids come from a
-- counter, as the database generates ids that are never used twice.
use modula_backend.Common.{
  ℕ, suc, Bool, true, false, not, ◌&&◌, Option, none, some, List, ◌∷◌, Text, ◌==◌, eqb, is_some,
  if◌then◌else◌, find_row, update_rows, delete_rows,
}
use modula_backend.Json.{Json}

pub data RecordStatus : Type 0 where
  processing completed : RecordStatus

abbrev pub is_completed : RecordStatus → Bool
is_completed processing = false
is_completed completed = true

pub record IdempotencyRecordRow : Type 0 where
  pub id : ℕ
  pub scope_fingerprint : Text
  pub tenant_id : Text
  pub branch_id : Option Text
  pub action_key : Text
  pub idempotency_key : Text
  pub payload_hash : Text
  pub status : RecordStatus
  pub response_status : Option ℕ
  pub response_body : Option Json

-- The table of records beside the rest of the database, `world`, which the handlers change.
pub record Db (W : Type 0) : Type 0 where
  pub records : List IdempotencyRecordRow
  pub next_id : ℕ
  pub world : W

pub record StartInput : Type 0 where
  pub scope_fingerprint : Text
  pub tenant_id : Text
  pub branch_id : Option Text
  pub action_key : Text
  pub idempotency_key : Text
  pub payload_hash : Text

-- The unique key of the table.
unfoldable pub has_identity : Text → Text → Text → IdempotencyRecordRow → Bool
has_identity f a k r = r.scope_fingerprint == f && (r.action_key == a && r.idempotency_key == k)

abbrev pub has_id : ℕ → IdempotencyRecordRow → Bool
has_id i r = eqb r.id i

unfoldable pub find_existing :
    Text → Text → Text → List IdempotencyRecordRow → Option IdempotencyRecordRow
find_existing f a k rows = find_row (has_identity f a k) rows

-- The row that `tryStart` inserts, with its defaults.
unfoldable pub new_record : StartInput → ℕ → IdempotencyRecordRow
new_record input i = record {
  id = i;
  scope_fingerprint = input.scope_fingerprint;
  tenant_id = input.tenant_id;
  branch_id = input.branch_id;
  action_key = input.action_key;
  idempotency_key = input.idempotency_key;
  payload_hash = input.payload_hash;
  status = processing;
  response_status = none;
  response_body = none;
}

module _ {W : Type 0} where
  unfoldable pub insert_record : StartInput → Db W → Db W
  insert_record input db = record db {
    records = new_record input db.next_id ∷ db.records;
    next_id = suc db.next_id;
  }

  -- `INSERT ... ON CONFLICT DO NOTHING`: `none` is `{ started: false }`.
  unfoldable pub try_start : StartInput → Db W → Option IdempotencyRecordRow × Db W
  try_start input db =
      if is_some
        (find_existing input.scope_fingerprint input.action_key input.idempotency_key db.records)
      then (none, db)
      else (some (new_record input db.next_id), insert_record input db)

abbrev pub set_response : ℕ → Json → IdempotencyRecordRow → IdempotencyRecordRow
set_response code body r = record r {
  status = completed;
  response_status = some code;
  response_body = some body;
}

unfoldable pub complete : ℕ → ℕ → Json → List IdempotencyRecordRow → List IdempotencyRecordRow
complete i code body = update_rows (has_id i) (set_response code body)

unfoldable pub clear_processing : ℕ → List IdempotencyRecordRow → List IdempotencyRecordRow
clear_processing i = delete_rows (λ r. has_id i r && not (is_completed r.status))

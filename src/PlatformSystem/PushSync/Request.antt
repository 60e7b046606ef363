-- ===== src/PlatformSystem/PushSync/Request.antt =====
-- The body of a replay request (`parseReplayRequestBody` of pushSync/api/router.ts). A field is the text that
-- `String` gives, `none` where it is missing; a payload is `none` where it is no object; `new Date` and
-- the hash of a payload are arguments.
use modula_backend.Common.{
  ℕ, suc, Bool, not, ◌&&◌, ◌||◌, Option, none, some, List, [], ◌∷◌, ◌++◌, Text, codes, ◌==◌, leb,
  ltb, length, is_empty, is_some, trim, find_row, if◌then◌else◌, Result, ok, err, or_error,
  error_if,
}
use modula_backend.Common.Steps.{◌>>=◌, ◌>>◌}
use modula_backend.PosOperation.CashSession.Guards.{is_hex, is_variant, is_dash, matches}
use modula_backend.PlatformSystem.PushSync.Rows.{ActorScope, ReplayOperation}

pub data RequestError : Type 0 where
  payload_invalid operation_not_supported context_mismatch : RequestError

pub data RawList : Type 0 where
  missing not_array : RawList
  array : List (Option Text) → RawList

pub record RawOperation (P : Type 0) : Type 0 where
  pub client_op_id : Option Text
  pub operation_type : Option Text
  pub tenant_id : Option Text
  pub branch_id : Option Text
  pub device_id : Option Text
  pub depends_on : RawList
  pub occurred_at : Option Text
  pub payload : Option P

-- `operations` is `none` where it is no array, and so is an entry that is no object.
pub data RawHalt : Type 0 where
  halt_missing : RawHalt
  halt_bool : Bool → RawHalt
  halt_other : Text → RawHalt

pub record RawBody (P : Type 0) : Type 0 where
  pub device_id : Option Text
  pub operations : Option (List (Option (RawOperation P)))
  pub halt_on_failure : RawHalt

unfoldable pub normalize_optional : Option Text → Option Text
normalize_optional none = none
normalize_optional (some t) = let n = trim t in if is_empty n then none else some n

abbrev pub is_version : ℕ → Bool
is_version c = leb 49 c && leb c 56

-- UUID_PATTERN, with versions 1 to 8.
abbrev pub uuid_pattern : List (ℕ → Bool)
uuid_pattern =
    is_hex ∷ is_hex ∷ is_hex ∷ is_hex ∷ is_hex ∷ is_hex ∷ is_hex ∷ is_hex ∷ is_dash ∷ is_hex
    ∷ is_hex ∷ is_hex ∷ is_hex ∷ is_dash ∷ is_version ∷ is_hex ∷ is_hex ∷ is_hex ∷ is_dash
    ∷ is_variant ∷ is_hex ∷ is_hex ∷ is_hex ∷ is_dash ∷ is_hex ∷ is_hex ∷ is_hex ∷ is_hex ∷ is_hex
    ∷ is_hex ∷ is_hex ∷ is_hex ∷ is_hex ∷ is_hex ∷ is_hex ∷ is_hex ∷ []

unfoldable pub assert_uuid : Option Text → Result RequestError Text
unfolding matches normalize_optional
assert_uuid value = do
  normalized ← or_error (normalize_optional value) payload_invalid
  error_if (not (matches uuid_pattern normalized)) payload_invalid
  ok normalized

abbrev pub operation_types : List Text
operation_types =
    codes "checkout.cash.finalize"
    ∷ codes "sale.finalize"
    ∷ codes "cashSession.open"
    ∷ codes "cashSession.movement"
    ∷ codes "cashSession.close"
    ∷ codes "attendance.startWork"
    ∷ codes "attendance.endWork"
    ∷ []

unfoldable pub assert_operation_type : Option Text → Result RequestError Text
unfolding normalize_optional
assert_operation_type value = do
  normalized ← or_error (normalize_optional value) payload_invalid
  error_if (not (is_some (find_row (λ t. t == normalized) operation_types))) operation_not_supported
  ok normalized

abbrev pub uuid_or : Option Text → Text → Result RequestError Text
uuid_or none own = ok own
uuid_or (some t) own = assert_uuid (some t)

unfoldable pub parse_operation_context :
    Option Text → Option Text → ActorScope → Result RequestError (Text × Text)
unfolding assert_uuid normalize_optional
parse_operation_context raw_tenant raw_branch actor = do
  tenant_id ← uuid_or (normalize_optional raw_tenant) actor.tenant_id
  branch_id ← uuid_or (normalize_optional raw_branch) actor.branch_id
  error_if (not (tenant_id == actor.tenant_id) || not (branch_id == actor.branch_id))
      context_mismatch
  ok (tenant_id, branch_id)

abbrev pub short_device : Option Text → Result RequestError (Option Text)
short_device none = ok none
short_device (some d) = if ltb 128 (length d) then err payload_invalid else ok (some d)

unfoldable pub parse_optional_device_id : Option Text → Result RequestError (Option Text)
unfolding normalize_optional
parse_optional_device_id value = short_device (normalize_optional value)

-- `Set.add`, in the order of insertion.
abbrev pub add : Text → List Text → List Text
add d seen = if is_some (find_row (λ t. t == d) seen) then seen else seen ++ (d ∷ [])

unfoldable pub parse_dependencies :
    Text → List (Option Text) → List Text → Result RequestError (List Text)
unfolding assert_uuid
parse_dependencies own [] seen = ok seen
parse_dependencies own (raw ∷ rest) seen = do
  dep ← assert_uuid raw
  error_if (dep == own) payload_invalid
  parse_dependencies own rest (add dep seen)

unfoldable pub parse_depends_on : RawList → Text → Result RequestError (List Text)
unfolding parse_dependencies
parse_depends_on missing own = ok []
parse_depends_on not_array own = err payload_invalid
parse_depends_on (array values) own = do
  error_if (ltb 50 (length values)) payload_invalid
  parse_dependencies own values []

abbrev pub device_or : Option Text → Option Text → Option Text
device_or none batch = batch
device_or (some d) batch = some d

module _ {P : Type 0} (hash : P → Text) (parse_date : Text → Option ℕ) (actor : ActorScope) where
  unfoldable pub parse_occurred_at : Option Text → Result RequestError ℕ
  unfolding normalize_optional
  parse_occurred_at value = do
    raw ← or_error (normalize_optional value) payload_invalid
    or_error (parse_date raw) payload_invalid

  unfoldable pub parse_operation :
      Option (RawOperation P) → ℕ → Option Text → Result RequestError (ReplayOperation P)
  unfolding assert_uuid assert_operation_type parse_operation_context parse_optional_device_id
      parse_depends_on parse_occurred_at
  parse_operation raw index batch_device = do
    value ← or_error raw payload_invalid
    client_op_id ← assert_uuid value.client_op_id
    operation_type ← assert_operation_type value.operation_type
    (tenant_id, branch_id) ← parse_operation_context value.tenant_id value.branch_id actor
    device_id ← parse_optional_device_id value.device_id
    depends_on ← parse_depends_on value.depends_on client_op_id
    occurred_at ← parse_occurred_at value.occurred_at
    payload ← or_error value.payload payload_invalid
    ok (record {
      index = index;
      client_op_id = client_op_id;
      operation_type = operation_type;
      device_id = device_or device_id batch_device;
      depends_on = depends_on;
      tenant_id = tenant_id;
      branch_id = branch_id;
      occurred_at = occurred_at;
      payload = payload;
      payload_hash = hash payload;
    })

  unfoldable pub parse_operations :
      List (Option (RawOperation P))
      → ℕ
      → Option Text
      → Result RequestError (List (ReplayOperation P))
  unfolding parse_operation
  parse_operations [] index batch_device = ok []
  parse_operations (raw ∷ rest) index batch_device = do
    op ← parse_operation raw index batch_device
    ops ← parse_operations rest (suc index) batch_device
    ok (op ∷ ops)

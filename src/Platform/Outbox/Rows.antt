-- ===== src/Platform/Outbox/Rows.antt =====
-- The table v0_command_outbox and `insertEvent` of platform/outbox/repository.ts. Times are natural numbers; ids are numbers
-- that are used once.
pub mod Dedupe
use modula_backend.Common.{
  ℕ, suc, Bool, true, false, ◌&&◌, Option, none, some, List, [], ◌∷◌, ◌++◌, Text, ◌==◌, eqb,
  is_some, find_row, if◌then◌else◌,
}

pub data ActorType : Type 0 where
  account system : ActorType

pub data Outcome : Type 0 where
  success rejected failed : Outcome

pub record OutboxRow (P : Type 0) : Type 0 where
  pub id : ℕ
  pub tenant_id : Text
  pub branch_id : Option Text
  pub action_key : Text
  pub event_type : Text
  pub actor_type : ActorType
  pub actor_id : Option Text
  pub entity_type : Text
  pub entity_id : Text
  pub outcome : Outcome
  pub reason_code : Option Text
  pub dedupe_key : Option Text
  pub payload : P
  pub occurred_at : ℕ
  pub created_at : ℕ
  pub published_at : Option ℕ
  pub retry_count : ℕ

pub record EventInput (P : Type 0) : Type 0 where
  pub tenant_id : Text
  pub branch_id : Option Text
  pub action_key : Text
  pub event_type : Text
  pub actor_type : ActorType
  pub actor_id : Option Text
  pub entity_type : Text
  pub entity_id : Text
  pub outcome : Outcome
  pub reason_code : Option Text
  pub dedupe_key : Option Text
  pub payload : Option P
  pub occurred_at : Option ℕ

-- `COALESCE`.
abbrev pub coalesce : {A : Type 0} → Option A → A → A
coalesce none a = a
coalesce (some b) a = b

-- ON CONFLICT (tenant_id, dedupe_key) WHERE dedupe_key IS NOT NULL.
abbrev pub same_key : Option Text → Option Text → Bool
same_key (some k) (some k') = k == k'
same_key _ _ = false

module _ {P : Type 0} where
  unfoldable pub has_dedupe_key : Text → Option Text → OutboxRow P → Bool
  has_dedupe_key tenant key r = r.tenant_id == tenant && same_key r.dedupe_key key

  -- The row of an event, `empty` being '{}'.
  unfoldable pub new_event : P → EventInput P → ℕ → ℕ → OutboxRow P
  new_event empty input id now = record {
    id = id;
    tenant_id = input.tenant_id;
    branch_id = input.branch_id;
    action_key = input.action_key;
    event_type = input.event_type;
    actor_type = input.actor_type;
    actor_id = input.actor_id;
    entity_type = input.entity_type;
    entity_id = input.entity_id;
    outcome = input.outcome;
    reason_code = input.reason_code;
    dedupe_key = input.dedupe_key;
    payload = coalesce input.payload empty;
    occurred_at = coalesce input.occurred_at now;
    created_at = now;
    published_at = none;
    retry_count = 0;
  }

  -- The inserted row, if any, and the table.
  unfoldable pub insert_event :
      P → EventInput P → ℕ → ℕ → List (OutboxRow P) → Option (OutboxRow P) × List (OutboxRow P)
  insert_event empty input id now rows =
      if is_some (find_row (has_dedupe_key input.tenant_id input.dedupe_key) rows)
      then (none, rows)
      else (some (new_event empty input id now), rows ++ (new_event empty input id now ∷ []))

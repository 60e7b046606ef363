-- ===== src/PosOperation/CashSession/Commands.antt =====
-- The six write routes of cashSession/api/router.ts: a command to the service, the audit event, the outbox row and the
-- sync change, in one transaction; and the databases that they and the sale events lead to. The insert of
-- the audit event (audit/app/service.ts) and the dedupe key (shared/utils/dedupe.ts) are arguments.
pub mod Atomicity
pub mod OneOpen
pub mod Valid
pub mod Invariant
pub mod Reachable
pub mod Accounted
use modula_backend.Common.{
  ℕ, Bool, Option, none, some, List, [], ◌++◌, Text, codes, is_empty, if◌then◌else◌, Result, ok,
  err, Action, pure,
}
use modula_backend.Common.Chain.{◌>>=◌, ◌>>◌}
use modula_backend.Platform.Transactions.{with_transaction}
use modula_backend.Platform.Outbox.Rows.{OutboxRow, EventInput, account, success, insert_event}
use modula_backend.PlatformSystem.PullSync.{ChangeRow, upsert, append_change}
use modula_backend.PosOperation.CashSession.Rows.{CashSessionRow, CashMovementRow, CashDb, Tick}
use modula_backend.PosOperation.CashSession.Failures.{Failure, statement_refused}
use modula_backend.PosOperation.CashSession.Guards.{ActorContext, trimmed}
use modula_backend.PosOperation.CashSession.Bodies.{
  OpenBody, CloseBody, ForceCloseBody, MovementBody,
}
use modula_backend.PosOperation.CashSession.Service.{
  open_cash_session, close_cash_session, force_close_session,
}
use modula_backend.PosOperation.CashSession.Drawer.{
  record_paid_in, record_paid_out, record_adjustment,
}
use modula_backend.PosOperation.CashSession.Subscriber.{OutboxBusEvent, append_cash_sale_movement}

-- A movement command carries the `Idempotency-Key` of its request.
pub data CashCommand : Type 0 where
  open_command : Option OpenBody → CashCommand
  close_command : Option Text → Option CloseBody → CashCommand
  force_close_command : Option Text → Option ForceCloseBody → CashCommand
  paid_in_command : Option Text → Option MovementBody → Text → CashCommand
  paid_out_command : Option Text → Option MovementBody → Text → CashCommand
  adjustment_command : Option Text → Option MovementBody → Text → CashCommand

-- `commandData`.
pub data CommandData : Type 0 where
  session_data : CashSessionRow → CommandData
  movement_data : CashMovementRow → CommandData

abbrev pub answer_with :
    {A : Type 0}
    → (A → CommandData)
    → Result Failure A × CashDb
    → Result Failure CommandData × CashDb
answer_with f (ok a, db) = (ok (f a), db)
answer_with f (err e, db) = (err e, db)

-- `inputWrite.handler`.
unfoldable pub run_service : ActorContext → CashCommand → Tick → Action CashDb Failure CommandData
run_service context (open_command body) tick db =
    answer_with session_data (open_cash_session context body tick db)
run_service context (close_command id body) tick db =
    answer_with session_data (close_cash_session context id body tick db)
run_service context (force_close_command id body) tick db =
    answer_with session_data (force_close_session context id body tick db)
run_service context (paid_in_command id body key) tick db =
    answer_with movement_data (record_paid_in context id body key tick db)
run_service context (paid_out_command id body key) tick db =
    answer_with movement_data (record_paid_out context id body key tick db)
run_service context (adjustment_command id body key) tick db =
    answer_with movement_data (record_adjustment context id body key tick db)

-- What a route says of its command.
abbrev pub action_key_of : CashCommand → Text
action_key_of (open_command _) = codes "cashSession.open"
action_key_of (close_command _ _) = codes "cashSession.close"
action_key_of (force_close_command _ _) = codes "cashSession.forceClose"
action_key_of (paid_in_command _ _ _) = codes "cashSession.paidIn"
action_key_of (paid_out_command _ _ _) = codes "cashSession.paidOut"
action_key_of (adjustment_command _ _ _) = codes "cashSession.adjust"

abbrev pub event_type_of : CashCommand → Text
event_type_of (open_command _) = codes "CASH_SESSION_OPENED"
event_type_of (close_command _ _) = codes "CASH_SESSION_CLOSED"
event_type_of (force_close_command _ _) = codes "CASH_SESSION_FORCE_CLOSED"
event_type_of (adjustment_command _ _ _) = codes "CASH_ADJUSTMENT_RECORDED"
event_type_of _ = codes "CASH_MOVEMENT_RECORDED"

abbrev pub entity_type_of : CommandData → Text
entity_type_of (session_data _) = codes "cash_session"
entity_type_of (movement_data _) = codes "cash_movement"

abbrev pub endpoint_of : CashCommand → Text
endpoint_of (open_command _) = codes "/v0/cash/sessions"
endpoint_of (close_command _ _) = codes "/v0/cash/sessions/:sessionId/close"
endpoint_of (force_close_command _ _) = codes "/v0/cash/sessions/:sessionId/force-close"
endpoint_of (paid_in_command _ _ _) = codes "/v0/cash/sessions/:sessionId/movements/paid-in"
endpoint_of (paid_out_command _ _ _) = codes "/v0/cash/sessions/:sessionId/movements/paid-out"
endpoint_of (adjustment_command _ _ _) = codes "/v0/cash/sessions/:sessionId/movements/adjustment"

-- `commandData.id`.
abbrev pub entity_id_of : CommandData → Text
entity_id_of (session_data s) = s.id
entity_id_of (movement_data m) = m.id

-- The tables that a write touches; `A` is the audit log's.
pub record WriteDb (A : Type 0) : Type 0 where
  pub cash : CashDb
  pub audit : A
  pub outbox : List (OutboxRow Text)
  pub changes : List (ChangeRow CommandData)

-- What the database supplies to the statements of a write, and whether it takes the INSERT of the event
-- and that of the change.
pub record WriteTick : Type 0 where
  pub tick : Tick
  pub outbox_id : ℕ
  pub outbox_id_text : Text
  pub sequence : ℕ
  pub takes_event : Bool
  pub takes_change : Bool

abbrev pub change_of :
    ActorContext → CommandData → OutboxRow Text → WriteTick → ChangeRow CommandData
change_of context answer row t = record {
  sequence = t.sequence;
  tenant_id = trimmed context.tenant_id;
  branch_id = trimmed context.branch_id;
  account_id = none;
  module_key = codes "cashSession";
  entity_type = entity_type_of answer;
  entity_id = entity_id_of answer;
  operation = upsert;
  revision = codes "cashSession:" ++ t.outbox_id_text;
  content = some answer;
  changed_at = row.occurred_at;
  source_outbox_id = some t.outbox_id_text;
}

abbrev pub event_input : ActorContext → CashCommand → Option Text → CommandData → EventInput Text
event_input context c dedupe_key answer = record {
  tenant_id = trimmed context.tenant_id;
  branch_id =
      if is_empty (trimmed context.branch_id) then none else some (trimmed context.branch_id);
  action_key = action_key_of c;
  event_type = event_type_of c;
  actor_type = account;
  actor_id = context.account_id;
  entity_type = entity_type_of answer;
  entity_id = entity_id_of answer;
  outcome = success;
  reason_code = none;
  dedupe_key = dedupe_key;
  payload = some (endpoint_of c);
  occurred_at = none;
}

module _ {A : Type 0} where
  abbrev pub put_cash : {B : Type 0} → WriteDb A → B × CashDb → B × WriteDb A
  put_cash db (b, cash) = (b, record db { cash = cash })

  abbrev pub put_audit : {B : Type 0} → WriteDb A → B × A → B × WriteDb A
  put_audit db (b, audit) = (b, record db { audit = audit })

  abbrev pub put_outbox :
      WriteDb A
      → Option (OutboxRow Text) × List (OutboxRow Text)
      → Result Failure (Option (OutboxRow Text)) × WriteDb A
  put_outbox db (row, rows) = (ok row, record db { outbox = rows })

  -- `txOutboxRepository.insertEvent`.
  unfoldable pub insert_outbox :
      EventInput Text → WriteTick → Action (WriteDb A) Failure (Option (OutboxRow Text))
  insert_outbox event t db =
      if t.takes_event
      then put_outbox db (insert_event [] event t.outbox_id t.tick.now db.outbox)
      else (err statement_refused, db)

  -- `txSyncRepository.appendChange`, for an event that was inserted in a branch.
  unfoldable pub append_sync :
      ActorContext
      → CommandData
      → WriteTick
      → Option (OutboxRow Text)
      → Action (WriteDb A) Failure (Unit {0})
  append_sync context answer t none db = (ok tt, db)
  append_sync context answer t (some row) db =
      if is_empty (trimmed context.branch_id)
      then (ok tt, db)
      else if t.takes_change
      then (
        ok tt,
        record db { changes = append_change (change_of context answer row t) db.changes },
      )
      else (err statement_refused, db)

  module _ (record_event : CashCommand → CommandData → Action A Failure (Unit {0}))
      (context : ActorContext) (c : CashCommand) (dedupe_key : Option Text) (t : WriteTick) where
    unfoldable pub write_body : Action (WriteDb A) Failure CommandData
    write_body = do
      answer ← λ db. put_cash db (run_service context c t.tick db.cash)
      λ db. put_audit db (record_event c answer db.audit)
      row ← insert_outbox (event_input context c dedupe_key answer) t
      append_sync context answer t row
      pure answer

    -- The transaction of `executeWrite`.
    unfoldable pub run_command : Action (WriteDb A) Failure CommandData
    run_command = with_transaction write_body

-- What happens to the tables: a command, or a sale that the outbox announces.
pub data Step {A : Type 0} : WriteDb A → WriteDb A → Type 0 where
  command :
      {db : WriteDb A} (record_event : CashCommand → CommandData → Action A Failure (Unit {0}))
      (context : ActorContext) (c : CashCommand) (dedupe_key : Option Text) (t : WriteTick)
      → Step db (run_command record_event context c dedupe_key t db).1
  sale_event :
      {db : WriteDb A} (event : OutboxBusEvent) (tick : Tick)
      → Step db (record db { cash = (append_cash_sale_movement event tick db.cash).1 })

pub data Reach {A : Type 0} (start : WriteDb A) : WriteDb A → Type 0 where
  here : Reach start start
  next : {a b : WriteDb A} → Reach start a → Step a b → Reach start b

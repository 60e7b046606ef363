-- ===== src/PosOperation/CashSession/Commands/Reachable.antt =====
-- The tables of cash sessions stay valid along any run of commands and sale events.
use modula_backend.Common.{
  ℕ, Bool, ◌≡◌, refl, sym, subst, Option, none, some, Text, Result, ok, err, arith, Action,
  ok-ne-err,
}
use modula_backend.Common.Chain.{
  Preserves, >>=-Preserves, Reads-Preserves, gets-Reads, lift-Reads, raise_if-Reads, pure-Reads,
}
use modula_backend.Platform.Transactions.{with_transaction-Preserves}
use modula_backend.Platform.Outbox.Rows.{OutboxRow, EventInput}
use modula_backend.Platform.Roles.{RoleKey}
use modula_backend.PosOperation.CashSession.Rows.{
  CashMovementType, CashMovementRow, CashSessionRow, SaleRow, CashDb, Tick,
}
use modula_backend.PosOperation.CashSession.Failures.{Failure}
use modula_backend.PosOperation.CashSession.Repository.{find_session_by_occurred_at}
use modula_backend.PosOperation.CashSession.Movements.{append_movement}
use modula_backend.PosOperation.CashSession.Guards.{ActorContext}
use modula_backend.PosOperation.CashSession.Guards.Reading.{
  assert_branch_context-Reads, resolve_actor_role-Reads, assert_role-Reads,
  require_session_for_branch-Reads, require_open_session_for_movement-Reads,
  assert_session_ownership_for_cashier-Reads,
}
use modula_backend.PosOperation.CashSession.Bodies.{
  OpenBody, CloseBody, ForceCloseBody, MovementBody, MovementInput,
}
use modula_backend.PosOperation.CashSession.Service.{
  open_cash_session, close_cash_session, force_close_session,
}
use modula_backend.PosOperation.CashSession.Drawer.{
  record_manual, record_paid_in, record_paid_out, record_adjustment,
}
use modula_backend.PosOperation.CashSession.Subscriber.{
  OutboxBusEvent, skip_duplicate, enter_in, enter_at, enter_sale, append_cash_sale_movement,
  sale_movement, entered_at, get_sale_by_id,
}
use modula_backend.PosOperation.CashSession.Commands.{
  CashCommand, open_command, close_command, force_close_command, paid_in_command, paid_out_command,
  adjustment_command, CommandData, answer_with, run_service, WriteDb, WriteTick, put_audit,
  insert_outbox, append_sync, write_body, run_command, Step, command, sale_event, Reach, here, next,
}
use modula_backend.PosOperation.CashSession.Commands.Valid.{IsValid}
use modula_backend.PosOperation.CashSession.Commands.Invariant.{
  create_session-IsValid, append_movement-IsValid, close_with-IsValid, append_caught-IsValid,
}

open_cash_session-IsValid :
    (context : ActorContext) (raw_body : Option OpenBody) (tick : Tick)
    → Preserves IsValid (open_cash_session context raw_body tick)
unfolding open_cash_session
open_cash_session-IsValid context raw_body tick =
    >>=-Preserves IsValid _ (Reads-Preserves IsValid (assert_branch_context-Reads context)) λ actor.
      >>=-Preserves IsValid _ (Reads-Preserves IsValid (resolve_actor_role-Reads actor)) λ role.
        >>=-Preserves IsValid _ (Reads-Preserves IsValid (assert_role-Reads _ role)) λ _.
          >>=-Preserves IsValid _ (Reads-Preserves IsValid (lift-Reads _)) λ body.
            >>=-Preserves IsValid _ (Reads-Preserves IsValid (gets-Reads _)) λ existing.
              >>=-Preserves IsValid _ (Reads-Preserves IsValid (raise_if-Reads _ _))
                λ _. create_session-IsValid _ tick

close_cash_session-IsValid :
    (context : ActorContext) (id : Option Text) (raw_body : Option CloseBody) (tick : Tick)
    → Preserves IsValid (close_cash_session context id raw_body tick)
unfolding close_cash_session
close_cash_session-IsValid context id raw_body tick =
    >>=-Preserves IsValid _ (Reads-Preserves IsValid (assert_branch_context-Reads context)) λ actor.
      >>=-Preserves IsValid _ (Reads-Preserves IsValid (resolve_actor_role-Reads actor)) λ role.
        >>=-Preserves IsValid _ (Reads-Preserves IsValid (assert_role-Reads _ role)) λ _.
          >>=-Preserves IsValid _ (Reads-Preserves IsValid (lift-Reads _)) λ body.
            >>=-Preserves IsValid _
              (Reads-Preserves IsValid (require_session_for_branch-Reads actor id))
              λ session.
                >>=-Preserves IsValid _
                  (Reads-Preserves IsValid
                    (assert_session_ownership_for_cashier-Reads role actor session))
                  λ _. close_with-IsValid actor session _ tick refl

force_close_session-IsValid :
    (context : ActorContext) (id : Option Text) (raw_body : Option ForceCloseBody) (tick : Tick)
    → Preserves IsValid (force_close_session context id raw_body tick)
unfolding force_close_session
force_close_session-IsValid context id raw_body tick =
    >>=-Preserves IsValid _ (Reads-Preserves IsValid (assert_branch_context-Reads context)) λ actor.
      >>=-Preserves IsValid _ (Reads-Preserves IsValid (resolve_actor_role-Reads actor)) λ role.
        >>=-Preserves IsValid _ (Reads-Preserves IsValid (assert_role-Reads _ role)) λ _.
          >>=-Preserves IsValid _ (Reads-Preserves IsValid (lift-Reads _)) λ body.
            >>=-Preserves IsValid _
              (Reads-Preserves IsValid (require_session_for_branch-Reads actor id))
              λ session. close_with-IsValid actor session _ tick refl

record_manual-IsValid :
    (type : CashMovementType) (accepts : RoleKey → Bool)
    (parse : Option MovementBody → Result Failure MovementInput) (context : ActorContext)
    (id : Option Text) (raw_body : Option MovementBody) (key : Text) (tick : Tick)
    → Preserves IsValid (record_manual type accepts parse context id raw_body key tick)
unfolding record_manual
record_manual-IsValid type accepts parse context id raw_body key tick =
    >>=-Preserves IsValid _ (Reads-Preserves IsValid (assert_branch_context-Reads context)) λ actor.
      >>=-Preserves IsValid _ (Reads-Preserves IsValid (resolve_actor_role-Reads actor)) λ role.
        >>=-Preserves IsValid _ (Reads-Preserves IsValid (assert_role-Reads accepts role)) λ _.
          >>=-Preserves IsValid _ (Reads-Preserves IsValid (lift-Reads _)) λ body.
            >>=-Preserves IsValid _
              (Reads-Preserves IsValid (require_open_session_for_movement-Reads actor id))
              λ session. append_caught-IsValid _ tick

answered :
    {A : Type 0} (f : A → CommandData) (o : Result Failure A × CashDb) (x : CommandData)
    → (answer_with f o).0 ≡ ok x
    → ((a : A) → o.0 ≡ ok a → IsValid o.1)
    → IsValid (answer_with f o).1
answered f (ok a, db) x h k = k a refl
answered f (err e, db) x h k = absurd (ok-ne-err (sym h))

run_service-IsValid :
    (context : ActorContext) (c : CashCommand) (tick : Tick)
    → Preserves IsValid (run_service context c tick)
unfolding run_service record_paid_in record_paid_out record_adjustment
run_service-IsValid context (open_command body) tick = record {
  preserves = λ db x h v.
      answered _ _ x h (λ a k. (open_cash_session-IsValid context body tick).preserves db a k v);
}
run_service-IsValid context (close_command id body) tick = record {
  preserves = λ db x h v.
      answered _ _ x h
        (λ a k. (close_cash_session-IsValid context id body tick).preserves db a k v);
}
run_service-IsValid context (force_close_command id body) tick = record {
  preserves = λ db x h v.
      answered _ _ x h
        (λ a k. (force_close_session-IsValid context id body tick).preserves db a k v);
}
run_service-IsValid context (paid_in_command id body key) tick = record {
  preserves = λ db x h v.
      answered _ _ x h
        (λ a k. (record_manual-IsValid _ _ _ context id body key tick).preserves db a k v);
}
run_service-IsValid context (paid_out_command id body key) tick = record {
  preserves = λ db x h v.
      answered _ _ x h
        (λ a k. (record_manual-IsValid _ _ _ context id body key tick).preserves db a k v);
}
run_service-IsValid context (adjustment_command id body key) tick = record {
  preserves = λ db x h v.
      answered _ _ x h
        (λ a k. (record_manual-IsValid _ _ _ context id body key tick).preserves db a k v);
}

module _ {A : Type 0} where
  abbrev pub IsValidWrite : WriteDb A → Type 0
  IsValidWrite db = IsValid db.cash

  insert_outbox_cash :
      (event : EventInput Text) (t : WriteTick) (db : WriteDb A)
      → (insert_outbox event t db).1.cash ≡ db.cash
  unfolding insert_outbox
  insert_outbox_cash event t db = ground arith

  append_sync_cash :
      (context : ActorContext) (x : CommandData) (t : WriteTick) (o : Option (OutboxRow Text))
      (db : WriteDb A)
      → (append_sync context x t o db).1.cash ≡ db.cash
  unfolding append_sync
  append_sync_cash context x t none db = refl
  append_sync_cash context x t (some row) db = ground arith

  -- The rows beside the cash sessions do not count.
  beside :
      {B : Type 0} (m : Action (WriteDb A) Failure B)
      → ((db : WriteDb A) → (m db).1.cash ≡ db.cash)
      → Preserves IsValidWrite m
  beside m same = record { preserves = λ db b h v. subst IsValid (sym (same db)) v }

  module _ (record_event : CashCommand → CommandData → Action A Failure (Unit {0}))
      (context : ActorContext) (c : CashCommand) (dedupe_key : Option Text) (t : WriteTick) where
    write_body-IsValid : Preserves IsValidWrite (write_body record_event context c dedupe_key t)
    unfolding write_body
    write_body-IsValid =
        >>=-Preserves IsValidWrite _
          (record {
            preserves = λ db x h v. (run_service-IsValid context c t.tick).preserves db.cash x h v;
          })
          λ x.
            >>=-Preserves IsValidWrite _
              (beside (λ db. put_audit db (record_event c x db.audit)) (λ db. refl))
              λ _. >>=-Preserves IsValidWrite _ (beside _ (insert_outbox_cash _ t)) λ row.
                >>=-Preserves IsValidWrite _ (beside _ (append_sync_cash context x t row))
                  λ _. Reads-Preserves IsValidWrite (pure-Reads x)

    run_command-IsValid :
        (db : WriteDb A)
        → IsValid db.cash
        → IsValid (run_command record_event context c dedupe_key t db).1.cash
    unfolding run_command
    run_command-IsValid db v =
        with_transaction-Preserves IsValidWrite (write_body record_event context c dedupe_key t)
          write_body-IsValid db v

skip_duplicate_state : (o : Result Failure CashMovementRow × CashDb) → (skip_duplicate o).1 ≡ o.1
skip_duplicate_state o = ground arith

module _ (event : OutboxBusEvent) (tick : Tick) (db : CashDb) (v : IsValid db) where
  enter_in-IsValid :
      (x : SaleRow) (at : ℕ) (o : Option CashSessionRow) → IsValid (enter_in event x at o tick db).1
  enter_in-IsValid x at none = v
  enter_in-IsValid x at (some session) =
      subst IsValid
        (sym (skip_duplicate_state (append_movement (sale_movement event x at session) tick db)))
        (append_movement-IsValid (sale_movement event x at session) tick db v)

  enter_at-IsValid : (x : SaleRow) (o : Option ℕ) → IsValid (enter_at event x o tick db).1
  enter_at-IsValid x none = v
  enter_at-IsValid x (some at) =
      enter_in-IsValid x at (find_session_by_occurred_at event.tenant_id event.branch_id at db)

  enter_sale-IsValid : (o : Option SaleRow) → IsValid (enter_sale event o tick db).1
  enter_sale-IsValid none = v
  enter_sale-IsValid (some x) = enter_at-IsValid x (entered_at x)

  append_cash_sale_movement-IsValid : IsValid (append_cash_sale_movement event tick db).1
  unfolding append_cash_sale_movement
  append_cash_sale_movement-IsValid = enter_sale-IsValid (get_sale_by_id event db)

Step-IsValid : {A : Type 0} (a b : WriteDb A) → Step a b → IsValid a.cash → IsValid b.cash
Step-IsValid a _ (command record_event context c dedupe_key t) v =
    run_command-IsValid record_event context c dedupe_key t a v
Step-IsValid a _ (sale_event event tick) v = append_cash_sale_movement-IsValid event tick a.cash v

-- From a valid database, every run of commands and sale events leads to a valid one, also where the database
-- refuses a statement: a branch has at most one open session, every movement has the signs that its
-- type allows, every snapshot reconciles with the totals that it stores, and every session that is not
-- open has its snapshot.
pub Reach-IsValid :
    {A : Type 0} (start db : WriteDb A) → IsValid start.cash → Reach start db → IsValid db.cash
Reach-IsValid start _ v here = v
Reach-IsValid start b v (next {a} r s) = Step-IsValid a b s (Reach-IsValid start a v r)

-- ===== src/PosOperation/CashSession/Tests.antt =====
-- A cash session that is opened, takes a paid-in and is closed, and the theorems on this run.
use modula_backend.Common.{
  ◌≡◌, refl, ◌≢◌, none, some, [], ◌∷◌, Text, codes, ◌==◌, trim, pos, ◌+ℤ◌, is_zero, ok, err, arith,
  true, ◌≤◌, length, select, inl,
}
use modula_backend.Common.Chain.{◌>>=◌}
use modula_backend.Common.{ℕ, suc, Bool, Action, ◌-ℤ◌}
use modula_backend.PosOperation.CashSession.Totals.{is_sale_in_session}
use modula_backend.PosOperation.CashSession.Money.{from_cents}
use modula_backend.PosOperation.CashSession.Failures.{Failure}
use modula_backend.PosOperation.CashSession.Repository.{fits_movement, fits_usd, fits_khr}
use modula_backend.PosOperation.CashSession.Service.{
  snapshot_row, fits_snapshot, expected_cash, variance_of,
}
use modula_backend.Platform.Roles.{manager, is_till_staff}
use modula_backend.PosOperation.CashSession.Rows.{
  CashSessionRow, CashMovementRow, SaleRow, CashDb, Tick, closed, normal_close, open_session,
  manual_in, manual, cash, usd, finalized,
}
use modula_backend.PosOperation.CashSession.Failures.{cash_error, cash_movement_duplicate}
use modula_backend.PosOperation.CashSession.Money.{
  round_money, parse_money, reject_negative, parse_money_non_negative,
}
use modula_backend.PosOperation.CashSession.Repository.{
  get_session_by_id, is_session, is_active_in, close_session, is_open_session,
}
use modula_backend.PosOperation.CashSession.Movements.{
  append_movement, passes_checks, has_allowed_signs, has_allowed_source, is_duplicate,
  is_in_session,
}
use modula_backend.PosOperation.CashSession.Totals.{summarize_movement_totals}
use modula_backend.PosOperation.CashSession.Guards.{
  ActorContext, assert_branch_context, trimmed, branch_exists_and_active, resolve_actor_role,
  get_actor_role_in_tenant, assert_role, parse_required_uuid, is_uuid, matches,
  require_session_for_branch, require_open, require_open_session_for_movement,
  assert_session_ownership_for_cashier,
}
use modula_backend.PosOperation.CashSession.Bodies.{
  CloseBody, MovementBody, parse_paid_body, as_record, check_movement, parse_close_body,
  normalize_optional_string, parse_open_body,
}
use modula_backend.PosOperation.CashSession.Service.{
  open_cash_session, close_cash_session, close_with, close_session_row,
  upsert_reconciliation_snapshot,
}
use modula_backend.PosOperation.CashSession.Drawer.{record_manual, manual_movement, delta_of}
use modula_backend.PosOperation.CashSession.Totals.Balance.{
  balance, summarize_movement_totals_balance,
}
use modula_backend.PosOperation.CashSession.Drawer.Cases.{CanRecord}
use modula_backend.PosOperation.CashSession.Drawer.Effect.{record_manual_again}
use modula_backend.PosOperation.CashSession.Drawer.Delta.{record_manual-total_cash_delta}
use modula_backend.PosOperation.CashSession.Service.Cases.{CanClose}
use modula_backend.PosOperation.CashSession.Reports.{ZReport, get_z_report}
use modula_backend.PosOperation.CashSession.Reports.AfterClose.{
  Settles, close_cash_session-get_z_report, close_cash_session-record_manual,
}
use modula_backend.PosOperation.CashSession.Repository.{find_session_by_occurred_at, latest_opened}
use modula_backend.PosOperation.CashSession.Movements.{
  has_movement_key, has_sale_anchor, movements_of,
}
use modula_backend.PosOperation.CashSession.Totals.{total_of}
use modula_backend.PosOperation.CashSession.Subscriber.{
  OutboxBusEvent, get_sale_by_id, sale_movement, build_sale_cash_movement_anchor,
  append_cash_sale_movement,
}
use modula_backend.PosOperation.CashSession.Failures.{cash_session_already_open}
use modula_backend.PosOperation.CashSession.Repository.{get_active_session_by_branch}
use modula_backend.PosOperation.CashSession.Bodies.{
  OpenBody, parse_open_body, normalize_optional_string,
}
use modula_backend.PosOperation.CashSession.Repository.{is_active_in}
use modula_backend.PosOperation.CashSession.Service.{open_cash_session}
use modula_backend.PosOperation.CashSession.Reports.Frozen.{append_cash_sale_movement-get_z_report}
use modula_backend.PosOperation.CashSession.Commands.{
  CashCommand, CommandData, paid_in_command, WriteDb, WriteTick, run_command, command, here, next,
}
use modula_backend.PosOperation.CashSession.Commands.Valid.{IsValid}
use modula_backend.PosOperation.CashSession.Commands.Reachable.{Reach-IsValid}

abbrev session_id : Text
session_id = codes "11111111-1111-4111-8111-111111111111"

abbrev context : ActorContext
context = record {
  account_id = some (codes "a1");
  tenant_id = some (codes "t1");
  branch_id = some (codes " b1");
}

abbrev open_row : CashSessionRow
open_row = record {
  id = session_id;
  tenant_id = codes "t1";
  branch_id = codes "b1";
  opened_by_account_id = codes "a1";
  opened_at = 100;
  status = open_session;
  opening_float_usd = pos 5000;
  opening_float_khr = pos 0;
  opening_note = none;
  closed_by_account_id = none;
  closed_at = none;
  close_reason = none;
  close_note = none;
}

abbrev cash_sale : SaleRow
cash_sale = record {
  id = codes "s1";
  tenant_id = codes "t1";
  branch_id = codes "b1";
  status = finalized;
  payment_method = cash;
  tender_currency = usd;
  tender_amount = pos 700;
  finalized_at = some 150;
  finalized_by_account_id = none;
}

abbrev opened : CashDb
opened = record {
  sessions = open_row ∷ [];
  movements = [];
  snapshots = [];
  sales = cash_sale ∷ [];
  branches = record { id = codes "b1"; tenant_id = codes "t1"; is_active = true } ∷ [];
  memberships =
      record {
        tenant_id = codes "t1";
        account_id = codes "a1";
        role_key = manager;
        is_active = true;
      }
      ∷ [];
}

abbrev tick : Tick
tick = record { new_id = codes "m1"; now = 200 }

-- 12.50 USD, in ten-thousandths.
abbrev paid_in : MovementBody
paid_in = record {
  amount_usd = some (pos 125000);
  amount_khr = some (pos 0);
  reason = some (codes "change");
}

abbrev paid_in_row : CashMovementRow
paid_in_row = record {
  id = codes "m1";
  tenant_id = codes "t1";
  branch_id = codes "b1";
  cash_session_id = session_id;
  movement_type = manual_in;
  amount_usd_delta = pos 1250;
  amount_khr_delta = pos 0;
  reason = some (codes "change");
  source_ref_type = manual;
  source_ref_id = none;
  idempotency_key = codes "paid-in:k";
  recorded_by_account_id = codes "a1";
  occurred_at = 200;
}

paid_in_succeeds :
    (record_manual manual_in is_till_staff parse_paid_body context
      (some session_id)
      (some paid_in)
      (codes "k")
      tick
      opened).0
    ≡ ok paid_in_row
unfolding record_manual assert_branch_context trimmed trim branch_exists_and_active ◌>>=◌
    resolve_actor_role get_actor_role_in_tenant assert_role parse_paid_body as_record
    parse_money_non_negative parse_money round_money reject_negative check_movement is_zero
    require_open_session_for_movement require_session_for_branch parse_required_uuid is_uuid matches
    get_session_by_id is_session require_open append_movement passes_checks has_allowed_signs
    has_allowed_source is_duplicate manual_movement fits_movement fits_usd fits_khr ◌-ℤ◌ ◌==◌
paid_in_succeeds = refl

abbrev one_paid_in : CashDb
one_paid_in = record opened { movements = paid_in_row ∷ [] }

signs_one_paid_in : has_allowed_signs manual_in (pos 1250) (pos 0) ≡ true
unfolding has_allowed_signs
signs_one_paid_in = refl

abbrev sale_finalized : OutboxBusEvent
sale_finalized = record { tenant_id = codes "t1"; branch_id = codes "b1"; entity_id = codes "s1" }

one_open_row :
    (tenant branch : Text) → length (select (is_active_in tenant branch) (open_row ∷ [])) ≤ 1
unfolding is_active_in
one_open_row tenant branch = ground arith

-- 12 USD and 100 KHR are counted.
abbrev count : CloseBody
count = record {
  counted_cash_usd = some (pos 120000);
  counted_cash_khr = some (pos 1000000);
  note = none;
}

abbrev closed_open_row : CashSessionRow
closed_open_row = record open_row {
  status = closed;
  close_reason = some normal_close;
  closed_by_account_id = some (codes "a1");
  closed_at = some 200;
  close_note = none;
}

close_succeeds :
    (close_cash_session context (some session_id) (some count) tick opened).0 ≡ ok closed_open_row
unfolding close_cash_session assert_branch_context trimmed trim branch_exists_and_active ◌>>=◌
    resolve_actor_role get_actor_role_in_tenant assert_role parse_close_body as_record
    parse_money_non_negative parse_money round_money reject_negative normalize_optional_string
    require_session_for_branch parse_required_uuid is_uuid matches get_session_by_id is_session
    assert_session_ownership_for_cashier close_with require_open close_session_row close_session
    is_open_session upsert_reconciliation_snapshot snapshot_row expected_cash variance_of
    fits_snapshot fits_usd fits_khr summarize_movement_totals is_sale_in_session movements_of
    from_cents ◌-ℤ◌ ◌+ℤ◌ ◌==◌
close_succeeds = refl

record_manual_again_example :
    record_manual manual_in is_till_staff parse_paid_body context
      (some session_id)
      (some paid_in)
      (codes "k")
      (record { new_id = codes "m2"; now = 300 })
      (record_manual manual_in is_till_staff parse_paid_body context
        (some session_id)
        (some paid_in)
        (codes "k")
        tick
        opened).1
    ≡ (
      err (cash_error 409 cash_movement_duplicate),
      (record_manual manual_in is_till_staff parse_paid_body context
          (some session_id)
          (some paid_in)
          (codes "k")
          tick
          opened).1,
    )
record_manual_again_example =
    record_manual_again manual_in is_till_staff parse_paid_body context (some session_id)
      (some paid_in) (codes "k") tick opened (record { new_id = codes "m2"; now = 300 }) paid_in_row
      paid_in_succeeds

summarize_movement_totals_balance_example :
    ((summarize_movement_totals (codes "t1") session_id one_paid_in).total_cash_delta_usd
      ≡ balance
          (summarize_movement_totals (codes "t1") session_id one_paid_in).total_sale_in_usd
          (summarize_movement_totals (codes "t1") session_id one_paid_in).total_refund_out_usd
          (summarize_movement_totals (codes "t1") session_id one_paid_in).total_manual_in_usd
          (summarize_movement_totals (codes "t1") session_id one_paid_in).total_manual_out_usd
          (summarize_movement_totals (codes "t1") session_id one_paid_in).total_adjustment_usd)
    × ((summarize_movement_totals (codes "t1") session_id one_paid_in).total_cash_delta_khr
        ≡ balance
            (summarize_movement_totals (codes "t1") session_id one_paid_in).total_sale_in_khr
            (summarize_movement_totals (codes "t1") session_id one_paid_in).total_refund_out_khr
            (summarize_movement_totals (codes "t1") session_id one_paid_in).total_manual_in_khr
            (summarize_movement_totals (codes "t1") session_id one_paid_in).total_manual_out_khr
            (summarize_movement_totals (codes "t1") session_id one_paid_in).total_adjustment_khr)
summarize_movement_totals_balance_example =
    summarize_movement_totals_balance (codes "t1") session_id one_paid_in (signs_one_paid_in, tt)

opened-IsValid : IsValid opened
opened-IsValid = record {
  one_open = one_open_row;
  signs = tt;
  reconciled = tt;
  accounted = (inl refl, tt);
}

abbrev writing : WriteDb ℕ
writing = record { cash = opened; audit = 0; outbox = []; changes = [] }

-- The audit log counts its events.
abbrev count_event : CashCommand → CommandData → Action ℕ Failure (Unit {0})
count_event c answer n = (ok tt, suc n)

abbrev pay_in : CashCommand
pay_in = paid_in_command (some session_id) (some paid_in) (codes "k")

-- The event of the outbox is taken, or refused.
abbrev write_tick : Bool → WriteTick
write_tick takes = record {
  tick = tick;
  outbox_id = 1;
  outbox_id_text = codes "1";
  sequence = 1;
  takes_event = takes;
  takes_change = true;
}

Reach-IsValid_example :
    IsValid
      (run_command count_event context pay_in (some (codes "d")) (write_tick true) writing).1.cash
Reach-IsValid_example =
    Reach-IsValid writing
      (run_command count_event context pay_in (some (codes "d")) (write_tick true) writing).1
      opened-IsValid
      (next here (command count_event context pay_in (some (codes "d")) (write_tick true)))

close_cash_session-record_manual_example :
    (record_manual manual_in is_till_staff parse_paid_body context
      (some session_id)
      (some paid_in)
      (codes "k")
      tick
      (close_cash_session context (some session_id) (some count) tick opened).1).0
    ≢ ok paid_in_row
close_cash_session-record_manual_example =
    close_cash_session-record_manual context (some session_id) (some count) tick opened
      closed_open_row close_succeeds manual_in is_till_staff parse_paid_body (some paid_in)
      (codes "k") tick paid_in_row

close_cash_session-get_z_report_example :
    (a : CanClose context (some session_id) (some count) opened) × (z : ZReport) × (get_z_report
        context
        (some session_id)
        (close_cash_session context (some session_id) (some count) tick opened).1
      ≡ (ok z, (close_cash_session context (some session_id) (some count) tick opened).1))
    × Settles a.session a.actor.tenant_id a.body opened z
close_cash_session-get_z_report_example =
    close_cash_session-get_z_report context (some session_id) (some count) tick opened
      closed_open_row close_succeeds

record_manual-total_cash_delta_example :
    (a : CanRecord manual_in is_till_staff parse_paid_body context
      (some session_id)
      (some paid_in)
      opened)
    × ((summarize_movement_totals a.actor.tenant_id a.session.id
          (record_manual manual_in is_till_staff parse_paid_body context
            (some session_id)
            (some paid_in)
            (codes "k")
            tick
            opened).1).total_cash_delta_usd
        ≡ delta_of manual_in a.body.amount_usd
          +ℤ (summarize_movement_totals a.actor.tenant_id a.session.id opened).total_cash_delta_usd)
    × ((summarize_movement_totals a.actor.tenant_id a.session.id
          (record_manual manual_in is_till_staff parse_paid_body context
            (some session_id)
            (some paid_in)
            (codes "k")
            tick
            opened).1).total_cash_delta_khr
        ≡ delta_of manual_in a.body.amount_khr
          +ℤ (summarize_movement_totals a.actor.tenant_id a.session.id opened).total_cash_delta_khr)
record_manual-total_cash_delta_example =
    record_manual-total_cash_delta manual_in is_till_staff parse_paid_body context (some session_id)
      (some paid_in) (codes "k") tick opened paid_in_row paid_in_succeeds

abbrev after_close : CashDb
after_close = (close_cash_session context (some session_id) (some count) tick opened).1

append_cash_sale_movement-get_z_report_example :
    (get_z_report context
      (some session_id)
      (append_cash_sale_movement sale_finalized tick after_close).1).0
    ≡ (get_z_report context (some session_id) after_close).0
append_cash_sale_movement-get_z_report_example =
    append_cash_sale_movement-get_z_report context (some session_id) sale_finalized tick after_close

-- A sale of the open session that is announced after the close is in the totals all the same.
late_sale_counts :
    (summarize_movement_totals
      (codes "t1")
      session_id
      (append_cash_sale_movement sale_finalized tick after_close).1).total_cash_delta_usd
    ≡ pos 700
unfolding append_cash_sale_movement get_sale_by_id find_session_by_occurred_at latest_opened
    sale_movement build_sale_cash_movement_anchor append_movement passes_checks has_allowed_signs
    has_allowed_source is_zero is_duplicate has_movement_key has_sale_anchor
    summarize_movement_totals total_of movements_of is_in_session close_cash_session
    assert_branch_context trimmed trim branch_exists_and_active ◌>>=◌ resolve_actor_role
    get_actor_role_in_tenant assert_role parse_close_body as_record parse_money_non_negative
    parse_money round_money reject_negative normalize_optional_string require_session_for_branch
    parse_required_uuid is_uuid matches get_session_by_id is_session
    assert_session_ownership_for_cashier close_with require_open close_session_row close_session
    is_open_session upsert_reconciliation_snapshot fits_snapshot fits_movement fits_usd fits_khr
    snapshot_row expected_cash variance_of is_sale_in_session from_cents ◌-ℤ◌ ◌+ℤ◌ ◌==◌
late_sale_counts = refl

abbrev float : OpenBody
float = record { opening_float_usd = some (pos 0); opening_float_khr = some (pos 0); note = none }

already_open :
    (open_cash_session context (some float) tick opened).0
    ≡ err (cash_error 409 cash_session_already_open)
unfolding open_cash_session assert_branch_context trimmed trim branch_exists_and_active ◌>>=◌
    resolve_actor_role get_actor_role_in_tenant assert_role parse_open_body as_record
    parse_money_non_negative parse_money round_money reject_negative normalize_optional_string
    get_active_session_by_branch latest_opened is_active_in ◌==◌
already_open = refl

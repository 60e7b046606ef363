-- ===== src/Platform/Outbox/Tests.antt =====
-- An event that is inserted, dispatched and handled, and the theorems on this run.
use modula_backend.Common.{
  ℕ, suc, Bool, true, false, ◌≡◌, ◌⊎◌, inl, inr, refl, none, some, List, [], ◌∷◌, Text, codes, ◌==◌,
  arith, Bool-cases,
}
use modula_backend.Platform.Outbox.Rows.{
  OutboxRow, EventInput, account, success, insert_event, new_event, has_dedupe_key,
}
use modula_backend.Platform.Outbox.Rows.Dedupe.{insert_event_again}
use modula_backend.Platform.Outbox.Bus.{Bus, OutboxEvent, publish}
use modula_backend.Platform.Outbox.Dispatcher.{
  publish_types, published_then, publish_row, load_batch, run_tick, run_ticks,
}
use modula_backend.Platform.Outbox.Dispatcher.Marks.{PendingAt, Delivered, run_tick-Delivered}
use modula_backend.Platform.Outbox.Dispatcher.Drained.{backlog, backlog-run_ticks}
use modula_backend.Platform.Outbox.Dispatcher.Busy.{Activity, tick_at, insert_at}

abbrev sale : Text → EventInput ℕ
sale key = record {
  tenant_id = codes "t";
  branch_id = some (codes "b");
  action_key = codes "sale.finalize";
  event_type = codes "SALE_FINALIZED";
  actor_type = account;
  actor_id = none;
  entity_type = codes "sale";
  entity_id = codes "s";
  outcome = success;
  reason_code = none;
  dedupe_key = some key;
  payload = some 7;
  occurred_at = none;
}

abbrev one_event : List (OutboxRow ℕ)
one_event = (insert_event 0 (sale (codes "k")) 1 100 []).1

insert_event_again_example : insert_event 0 (sale (codes "k")) 2 200 one_event ≡ (none, one_event)
insert_event_again_example =
    insert_event_again 0 (sale (codes "k")) (sale (codes "k")) (codes "k") 1 100 2 200 [] refl refl
      refl

-- A handler that counts, and one that throws.
abbrev counting : Bus ℕ ℕ
counting = record { event_type = codes "SALE_FINALIZED"; handler = λ event w. (true, suc w) } ∷ []

abbrev all_taken : ℕ → Bool
all_taken id = true

run_tick-Delivered_example :
    PendingAt 1 (run_tick counting all_taken 300 10 (one_event, 0)).0
    ⊎ Delivered counting 1 (load_batch 10 one_event) 0
unfolding insert_event new_event has_dedupe_key
run_tick-Delivered_example =
    run_tick-Delivered counting all_taken 300 1 one_event ((λ e. refl), tt) 10 0

counting-publish : (event : OutboxEvent ℕ) (w : ℕ) → (publish counting event w).0 ≡ true
unfolding publish
counting-publish event w = elim (Bool-cases (codes "SALE_FINALIZED" == event.event_type)) [
  | inl same ↦ rw same refl
  | inr other ↦ rw other refl
]

then_true :
    (rest : ℕ → Bool × ℕ) (o : Bool × ℕ)
    → ((v : ℕ) → (rest v).0 ≡ true)
    → o.0 ≡ true
    → (published_then rest o).0 ≡ true
then_true rest (true, v) k h = k v
then_true rest (false, v) k h = h

counting_types :
    (types : List Text) (event : OutboxEvent ℕ) (w : ℕ)
    → (publish_types counting types event w).0 ≡ true
unfolding publish_types
counting_types [] event w = refl
counting_types (t ∷ types) event w =
    then_true (λ v. publish_types counting types event v)
      (publish counting (record event { event_type = t }) w) (λ v. counting_types types event v)
      (counting-publish (record event { event_type = t }) w)

counting_returns : (r : OutboxRow ℕ) (w : ℕ) → (publish_row counting r w).0 ≡ true
unfolding publish_row
counting_returns r w = counting_types _ _ w

backlog-run_ticks_example : backlog (run_ticks counting all_taken 1 (300 ∷ []) (one_event, 0)).0 ≡ 0
unfolding insert_event new_event has_dedupe_key
backlog-run_ticks_example =
    backlog-run_ticks counting all_taken (λ id. refl) counting_returns 0 (300 ∷ []) (one_event, 0)
      (omega arith)

abbrev throwing : Bus ℕ ℕ
throwing = record { event_type = codes "SALE_FINALIZED"; handler = λ event w. (false, w) } ∷ []

-- A tick, another event, and a tick.
abbrev busy : List (Activity ℕ)
busy = tick_at 300 ∷ insert_at (sale (codes "later")) 2 400 ∷ tick_at 500 ∷ []

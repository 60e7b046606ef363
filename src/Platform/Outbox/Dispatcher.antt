-- ===== src/Platform/Outbox/Dispatcher.antt =====
-- `processBatch` and a tick of `startV0CommandOutboxDispatcher` of platform/outbox/dispatcher.ts, for one dispatcher. Whether
-- PostgreSQL takes the update of a row is an argument: a refused one ends the tick, whose updates are
-- rolled back, while what the handlers did stays. The log, the metrics and the status are left out.
pub mod Marks
pub mod Drained
pub mod Poisoned
pub mod Busy
use modula_backend.Common.{
  ℕ, suc, Bool, true, false, not, Option, none, some, List, [], ◌∷◌, Text, codes, ◌==◌, eqb, leb,
  is_some, length, take, select, update_rows, if◌then◌else◌, Result, ok, err,
}
use modula_backend.Platform.Transactions.{commit_or_rollback}
use modula_backend.Platform.Outbox.Rows.{OutboxRow}
use modula_backend.Platform.Outbox.Bus.{Bus, OutboxEvent, publish}

unfoldable pub get_compatibility_event_types : Text → List Text
get_compatibility_event_types event_type =
    if event_type == codes "ORG_TENANT_PROVISIONED" then codes "TENANT_PROVISIONED" ∷ [] else []

pub data TickFailure : Type 0 where
  update_refused : TickFailure

pub record Summary : Type 0 where
  pub loaded_count : ℕ
  pub published_count : ℕ
  pub failed_count : ℕ
  pub backlog_count : ℕ

module _ {P : Type 0} where
  abbrev pub event_of : OutboxRow P → OutboxEvent P
  event_of r = record {
    event_type = r.event_type;
    outbox_id = r.id;
    tenant_id = r.tenant_id;
    branch_id = r.branch_id;
    action_key = r.action_key;
    actor_type = r.actor_type;
    actor_id = r.actor_id;
    entity_type = r.entity_type;
    entity_id = r.entity_id;
    outcome = r.outcome;
    reason_code = r.reason_code;
    dedupe_key = r.dedupe_key;
    occurred_at = r.occurred_at;
    payload = r.payload;
  }

  abbrev pub is_pending : OutboxRow P → Bool
  is_pending r = not (is_some r.published_at)

  -- ORDER BY created_at ASC.
  abbrev pub insert_ordered : OutboxRow P → List (OutboxRow P) → List (OutboxRow P)
  insert_ordered r [] = r ∷ []
  insert_ordered r (x ∷ xs) =
      if leb r.created_at x.created_at then r ∷ x ∷ xs else x ∷ insert_ordered r xs

  abbrev pub order_rows : List (OutboxRow P) → List (OutboxRow P)
  order_rows [] = []
  order_rows (r ∷ rs) = insert_ordered r (order_rows rs)

  unfoldable pub load_batch : ℕ → List (OutboxRow P) → List (OutboxRow P)
  load_batch batch_size rows = take batch_size (order_rows (select is_pending rows))

  -- The two updates of a row, by how its publication went.
  abbrev pub mark : ℕ → Bool → OutboxRow P → OutboxRow P
  mark now true r = record r { published_at = some now; retry_count = suc r.retry_count }
  mark now false r = record r { retry_count = suc r.retry_count }

abbrev pub counted : Bool → Summary → Summary
counted true s = record s { published_count = suc s.published_count }
counted false s = record s { failed_count = suc s.failed_count }

-- One type after another, until a handler throws.
abbrev pub published_then : {W : Type 0} → (W → Bool × W) → Bool × W → Bool × W
published_then rest (true, w) = rest w
published_then rest (false, w) = (false, w)

module _ {P W : Type 0} where
  unfoldable pub publish_types : Bus P W → List Text → OutboxEvent P → W → Bool × W
  publish_types bus [] event w = (true, w)
  publish_types bus (t ∷ ts) event w =
      published_then (λ v. publish_types bus ts event v)
        (publish bus (record event { event_type = t }) w)

  unfoldable pub publish_row : Bus P W → OutboxRow P → W → Bool × W
  publish_row bus r w =
      publish_types bus (r.event_type ∷ get_compatibility_event_types r.event_type) (event_of r) w

  abbrev pub after_publish :
      (Summary → List (OutboxRow P) → W → Result TickFailure Summary × (List (OutboxRow P) × W))
      → (ℕ → Bool)
      → ℕ
      → ℕ
      → Summary
      → List (OutboxRow P)
      → Bool × W
      → Result TickFailure Summary × (List (OutboxRow P) × W)
  after_publish rest accepts now id s rows (done, w) =
      if accepts id
      then rest (counted done s) (update_rows (λ r. eqb r.id id) (mark now done) rows) w
      else (err update_refused, (rows, w))

  unfoldable pub process_rows :
      Bus P W
      → (ℕ → Bool)
      → ℕ
      → List (OutboxRow P)
      → Summary
      → List (OutboxRow P)
      → W
      → Result TickFailure Summary × (List (OutboxRow P) × W)
  process_rows bus accepts now [] s rows w = (ok s, (rows, w))
  process_rows bus accepts now (r ∷ loaded) s rows w =
      after_publish (λ s' rows' w'. process_rows bus accepts now loaded s' rows' w') accepts now
        r.id s rows (publish_row bus r w)

  unfoldable pub process_batch :
      Bus P W
      → (ℕ → Bool)
      → ℕ
      → ℕ
      → List (OutboxRow P)
      → W
      → Result TickFailure Summary × (List (OutboxRow P) × W)
  process_batch bus accepts now batch_size rows w =
      let loaded = load_batch batch_size rows in
      process_rows bus accepts now loaded
        (record {
          loaded_count = length loaded;
          published_count = 0;
          failed_count = 0;
          backlog_count = length (select is_pending rows);
        })
        rows w

  -- COMMIT, or ROLLBACK of the rows.
  abbrev pub end_tick :
      List (OutboxRow P)
      → Result TickFailure Summary × (List (OutboxRow P) × W)
      → List (OutboxRow P) × W
  end_tick before (ok s, (rows, w)) = (rows, w)
  end_tick before (err e, (rows, w)) = (before, w)

  unfoldable pub run_tick :
      Bus P W → (ℕ → Bool) → ℕ → ℕ → List (OutboxRow P) × W → List (OutboxRow P) × W
  run_tick bus accepts now batch_size (rows, w) =
      end_tick rows (process_batch bus accepts now batch_size rows w)

  -- The timer: a tick at each of these times.
  unfoldable pub run_ticks :
      Bus P W → (ℕ → Bool) → ℕ → List ℕ → List (OutboxRow P) × W → List (OutboxRow P) × W
  run_ticks bus accepts batch_size [] o = o
  run_ticks bus accepts batch_size (now ∷ times) o =
      run_ticks bus accepts batch_size times (run_tick bus accepts now batch_size o)

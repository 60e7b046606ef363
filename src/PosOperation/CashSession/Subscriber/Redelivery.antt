-- ===== src/PosOperation/CashSession/Subscriber/Redelivery.antt =====
-- A finalized sale that the outbox announces more than once (cashSession/app/subscribers.ts).
use modula_backend.Common.{◌≡◌, Result, arith}
use modula_backend.PosOperation.CashSession.Rows.{CashMovementRow, CashDb, Tick}
use modula_backend.PosOperation.CashSession.Failures.{Failure}
use modula_backend.PosOperation.CashSession.Subscriber.{OutboxBusEvent, skip_duplicate}

pub skip_duplicate_state :
    (o : Result Failure CashMovementRow × CashDb) → (skip_duplicate o).1 ≡ o.1
skip_duplicate_state o = ground arith

module _ (event : OutboxBusEvent) (tick tick' : Tick) (db : CashDb) where
  Keeps : CashDb → Type 0
  Keeps after = (after.sessions ≡ db.sessions) × (after.sales ≡ db.sales)

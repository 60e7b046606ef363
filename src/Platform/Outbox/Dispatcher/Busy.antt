-- ===== src/Platform/Outbox/Dispatcher/Busy.antt =====
-- A full batch of events that are never handled, while events are inserted (platform/outbox/dispatcher.ts and
-- platform/outbox/repository.ts).
use modula_backend.Common.{ℕ, ◌≤◌, Bool, true, ◌≡◌, List, [], ◌∷◌, ◌++◌, length, select, map, All}
use modula_backend.Platform.Outbox.Rows.{OutboxRow, EventInput, insert_event}
use modula_backend.Platform.Outbox.Bus.{Bus}
use modula_backend.Platform.Outbox.Dispatcher.{is_pending, load_batch, run_tick}
use modula_backend.Platform.Outbox.Dispatcher.Poisoned.{core, Throws}

-- What happens to the table: a tick of the dispatcher, or an event that is inserted under an id at a time.
pub data Activity (P : Type 0) : Type 0 where
  tick_at : ℕ → Activity P
  insert_at : EventInput P → ℕ → ℕ → Activity P

-- The times of the insertions do not fall, from a time on.
abbrev pub Rises : {P : Type 0} → ℕ → List (Activity P) → Type 0
Rises at [] = Unit
Rises at (tick_at now ∷ rest) = Rises at rest
Rises at (insert_at input id now ∷ rest) = (at ≤ now) × Rises now rest

abbrev pub CreatedBy : {P : Type 0} → ℕ → List (OutboxRow P) → Type 0
CreatedBy at = All (λ r. r.created_at ≤ at)

module _ {P W : Type 0} (bus : Bus P W) (accepts : ℕ → Bool) (empty : P) (n : ℕ) where
  abbrev pub run_activity : Activity P → List (OutboxRow P) × W → List (OutboxRow P) × W
  run_activity (tick_at now) o = run_tick bus accepts now n o
  run_activity (insert_at input id now) o = ((insert_event empty input id now o.0).1, o.1)

  abbrev pub run_activities : List (Activity P) → List (OutboxRow P) × W → List (OutboxRow P) × W
  run_activities [] o = o
  run_activities (a ∷ rest) o = run_activities rest (run_activity a o)

  -- The batch is full and every event of it throws; no row was created after this time.
  pub record IsStuck (at : ℕ) (rows : List (OutboxRow P)) : Type 0 where
    pub throws : All (Throws bus) (load_batch n rows)
    pub full : n ≤ length (select is_pending rows)
    pub created : CreatedBy at rows

  -- Every row is what it was but for its count of failures, and what has come behind is not published.
  abbrev pub IsKept : List (OutboxRow P) → List (OutboxRow P) → Type 0
  IsKept rows after =
      (later : List (OutboxRow P)) × All (λ r. is_pending r ≡ true) later
      × (map core after ≡ map core rows ++ later)

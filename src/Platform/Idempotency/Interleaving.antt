-- ===== src/Platform/Idempotency/Interleaving.antt =====
-- Concurrent commands (platform/idempotency/service.ts): requests are interleaved at the statements
-- that touch the table, `tryStart`, `complete` and `clearProcessing`, and at the ends of their handlers, in any
-- order.
use modula_backend.Common.{
  ℕ, ◌+◌, ◌≡◌, Option, none, some, List, [], ◌∷◌, ◌++◌, Text, Bool, if◌then◌else◌, not, ◌&&◌,
  is_some, ok, err,
}
use modula_backend.Platform.Idempotency.Records.{
  IdempotencyRecordRow, Db, StartInput, has_identity, is_completed, try_start,
}
use modula_backend.Platform.Idempotency.Service.{Response, settle}

-- A started row, and the response of its handler where the handler has returned.
pub record Run : Type 0 where
  pub row : IdempotencyRecordRow
  pub response : Option Response

abbrev pub running : IdempotencyRecordRow → Run
running row = record { row = row; response = none }

abbrev pub returned : IdempotencyRecordRow → Response → Run
returned row response = record { row = row; response = some response }

-- The database, the runs that are not over, the rows whose handlers have succeeded, and those of them whose response the
-- database refused to record.
pub record System (W : Type 0) : Type 0 where
  pub db : Db W
  pub runs : List Run
  pub applied : List IdempotencyRecordRow
  pub lost : List IdempotencyRecordRow

module _ {W : Type 0} (E : Type 0) where
  pub data Step (c : System W) : System W → Type 0 where
    -- `tryStart` inserts a row, and the handler begins.
    start :
        (s : StartInput) (row : IdempotencyRecordRow)
        → (try_start s c.db).0 ≡ some row
        → Step c (record c { db = (try_start s c.db).1; runs = running row ∷ c.runs })
    -- A handler returns, leaving another world.
    return :
        (before after : List Run) (row : IdempotencyRecordRow) (response : Response) (world : W)
        → c.runs ≡ before ++ (running row ∷ after)
        → Step c (record c {
          db = record c.db { world = world };
          runs = before ++ (returned row response ∷ after);
          applied = row ∷ c.applied;
        })
    -- A handler throws, leaving another world: the `catch` deletes its row.
    throw :
        (before after : List Run) (row : IdempotencyRecordRow) (error : E) (world : W)
        → c.runs ≡ before ++ (running row ∷ after)
        → Step c (record c { db = (settle row c.db (err error, world)).1; runs = before ++ after })
    -- `complete` records the response of a handler that has returned.
    commit :
        (before after : List Run) (row : IdempotencyRecordRow) (response : Response)
        → c.runs ≡ before ++ (returned row response ∷ after)
        → Step c (record c {
          db = (settle {E = E} row c.db (ok response, c.db.world)).1;
          runs = before ++ after;
        })
    -- `complete` is refused: the `catch` deletes the row of a handler that has returned.
    lose :
        (before after : List Run) (row : IdempotencyRecordRow) (response : Response) (error : E)
        → c.runs ≡ before ++ (returned row response ∷ after)
        → Step c (record c {
          db = (settle row c.db (err error, c.db.world)).1;
          runs = before ++ after;
          lost = row ∷ c.lost;
        })

  pub data Reach (c : System W) : System W → Type 0 where
    here : Reach c c
    next : {d e : System W} → Reach c d → Step d e → Reach c e

abbrev pub idle : {W : Type 0} → W → System W
idle world = record {
  db = record { records = []; next_id = 0; world = world };
  runs = [];
  applied = [];
  lost = [];
}

-- How many rows of a list have a given scope, action and key.
abbrev pub count_key : Text → Text → Text → List IdempotencyRecordRow → ℕ
count_key f a k [] = 0
count_key f a k (r ∷ rows) = (if has_identity f a k r then 1 else 0) + count_key f a k rows

abbrev pub is_processing : IdempotencyRecordRow → Bool
is_processing r = not (is_completed r.status)

abbrev pub count_processing : Text → Text → Text → List IdempotencyRecordRow → ℕ
count_processing f a k [] = 0
count_processing f a k (r ∷ rows) =
    (if has_identity f a k r && is_processing r then 1 else 0) + count_processing f a k rows

abbrev pub count_completed : Text → Text → Text → List IdempotencyRecordRow → ℕ
count_completed f a k [] = 0
count_completed f a k (r ∷ rows) =
    (if has_identity f a k r && is_completed r.status then 1 else 0) + count_completed f a k rows

abbrev pub rows_of : List Run → List IdempotencyRecordRow
rows_of [] = []
rows_of (r ∷ runs) = r.row ∷ rows_of runs

abbrev pub count_running : Text → Text → Text → List Run → ℕ
count_running f a k [] = 0
count_running f a k (r ∷ runs) =
    (if has_identity f a k r.row && not (is_some r.response) then 1 else 0)
    + count_running f a k runs

abbrev pub count_returned : Text → Text → Text → List Run → ℕ
count_returned f a k [] = 0
count_returned f a k (r ∷ runs) =
    (if has_identity f a k r.row && is_some r.response then 1 else 0) + count_returned f a k runs

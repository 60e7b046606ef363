-- ===== src/Platform/Idempotency/Exclusion.antt =====
-- How often the interleaved requests of a key run and apply its command (platform/idempotency/service.ts).
use modula_backend.Common.{
  ◌+◌, ◌≤◌, ◌≡◌, refl, none, some, List, [], ◌∷◌, ◌++◌, Text, arith, ap, ◌∙◌, subst, sym, err, ok,
}
use modula_backend.Platform.Idempotency.Records.{
  IdempotencyRecordRow, Db, StartInput, find_existing, new_record, insert_record, try_start,
}
use modula_backend.Platform.Idempotency.Service.{Response, settle}
use modula_backend.Platform.Idempotency.Interleaving.{
  Run, running, returned, System, Step, start, return, throw, commit, lose, Reach, here, next, idle,
  count_key, count_running, count_returned, rows_of,
}
use modula_backend.Platform.Idempotency.Views.{
  View, Inv, idle-Inv, start-Inv, commit-Inv, abort-Inv,
}

rows_of_append :
    (before after : List Run) → rows_of (before ++ after) ≡ rows_of before ++ rows_of after
rows_of_append [] after = refl
rows_of_append (r ∷ before) after = ap (λ rows. r.row ∷ rows) (rows_of_append before after)

-- The runs of a key are running or have returned.
count_key-rows_of :
    (f a k : Text) (runs : List Run)
    → count_key f a k (rows_of runs) ≡ count_running f a k runs + count_returned f a k runs
count_key-rows_of f a k [] = refl
count_key-rows_of f a k (r ∷ runs) = ground (arith, count_key-rows_of f a k runs)

module _ (f a k : Text) (row : IdempotencyRecordRow) (after : List Run) where
  returned_counts :
      (response : Response) (before : List Run)
      → count_returned f a k (before ++ (returned row response ∷ after))
        ≡ count_key f a k (row ∷ []) + count_returned f a k (before ++ after)
  returned_counts response [] = ground arith
  returned_counts response (r ∷ before) = omega (arith, returned_counts response before)

  running_counts_not :
      (before : List Run)
      → count_returned f a k (before ++ (running row ∷ after))
        ≡ count_returned f a k (before ++ after)
  running_counts_not [] = ground arith
  running_counts_not (r ∷ before) = omega (arith, running_counts_not before)

try_start-some :
    {W : Type 0} (s : StartInput) (db : Db W) (row : IdempotencyRecordRow)
    → (try_start s db).0 ≡ some row
    → (find_existing s.scope_fingerprint s.action_key s.idempotency_key db.records ≡ none)
      × (row ≡ new_record s db.next_id)
      × ((try_start s db).1 ≡ insert_record s db)
unfolding try_start
try_start-some s db row h = ground arith

module _ {W : Type 0} where
  abbrev view : System W → List IdempotencyRecordRow → View
  view c completed = record {
    records = c.db.records;
    next_id = c.db.next_id;
    running = rows_of c.runs;
    applied = completed;
  }

  -- The table agrees with the runs; a row was applied if its handler has returned, and then it waits for its
  -- response to be recorded, is completed, or is lost.
  record Agrees (c : System W) : Type 0 where
    completed : List IdempotencyRecordRow
    inv : Inv (view c completed)
    applied_are :
        (f a k : Text)
        → count_key f a k c.applied
          ≡ count_returned f a k c.runs + count_key f a k completed + count_key f a k c.lost

  module _ (c : System W) (g : Agrees c) (before after : List Run)
      (row : IdempotencyRecordRow) where
    split_rows :
        (r : Run)
        → r.row ≡ row
        → c.runs ≡ before ++ (r ∷ after)
        → rows_of c.runs ≡ rows_of before ++ (row ∷ rows_of after)
    split_rows r same split =
        ap rows_of split
        ∙ rows_of_append before (r ∷ after)
        ∙ ap (λ x. rows_of before ++ (x ∷ rows_of after)) same

    return-Agrees :
        (response : Response) (world : W)
        → c.runs ≡ before ++ (running row ∷ after)
        → Agrees (record c {
          db = record c.db { world = world };
          runs = before ++ (returned row response ∷ after);
          applied = row ∷ c.applied;
        })
    return-Agrees response world split = record {
      completed = g.completed;
      inv =
          subst (λ rows. Inv (record (view c g.completed) { running = rows }))
            (split_rows (running row) refl split
              ∙ sym (rows_of_append before (returned row response ∷ after)))
            g.inv;
      applied_are = λ f a k. omega (
        arith,
        g.applied_are f a k,
        returned_counts f a k row after response before,
        running_counts_not f a k row after before,
        ap (count_returned f a k) split,
      );
    }

    -- The runs without this one.
    removed :
        (records completed : List IdempotencyRecordRow)
        → Inv (record {
          records = records;
          next_id = c.db.next_id;
          running = rows_of before ++ rows_of after;
          applied = completed;
        })
        → Inv (record {
          records = records;
          next_id = c.db.next_id;
          running = rows_of (before ++ after);
          applied = completed;
        })
    removed records completed v =
        subst
          (λ rows. Inv (record {
            records = records;
            next_id = c.db.next_id;
            running = rows;
            applied = completed;
          }))
          (sym (rows_of_append before after)) v

    module _ {E : Type 0} where
      throw-Agrees :
          (error : E) (world : W)
          → c.runs ≡ before ++ (running row ∷ after)
          → Agrees
              (record c { db = (settle row c.db (err error, world)).1; runs = before ++ after })
      unfolding settle
      throw-Agrees error world split = record {
        completed = g.completed;
        inv = removed _ g.completed (
            abort-Inv (view c g.completed) g.inv (rows_of before) (rows_of after) row
              (split_rows (running row) refl split));
        applied_are = λ f a k. omega (
          arith,
          g.applied_are f a k,
          running_counts_not f a k row after before,
          ap (count_returned f a k) split,
        );
      }

      lose-Agrees :
          (response : Response) (error : E)
          → c.runs ≡ before ++ (returned row response ∷ after)
          → Agrees (record c {
            db = (settle row c.db (err error, c.db.world)).1;
            runs = before ++ after;
            lost = row ∷ c.lost;
          })
      unfolding settle
      lose-Agrees response error split = record {
        completed = g.completed;
        inv = removed _ g.completed (
            abort-Inv (view c g.completed) g.inv (rows_of before) (rows_of after) row
              (split_rows (returned row response) refl split));
        applied_are = λ f a k. omega (
          arith,
          g.applied_are f a k,
          returned_counts f a k row after response before,
          ap (count_returned f a k) split,
        );
      }

    commit-Agrees :
        (E : Type 0) (response : Response)
        → c.runs ≡ before ++ (returned row response ∷ after)
        → Agrees (record c {
          db = (settle {E = E} row c.db (ok response, c.db.world)).1;
          runs = before ++ after;
        })
    unfolding settle
    commit-Agrees E response split = record {
      completed = row ∷ g.completed;
      inv = removed _ (row ∷ g.completed) (
          commit-Inv (view c g.completed) g.inv (rows_of before) (rows_of after) row
            (split_rows (returned row response) refl split) response);
      applied_are = λ f a k. omega (
        arith,
        g.applied_are f a k,
        returned_counts f a k row after response before,
        ap (count_returned f a k) split,
      );
    }

  inserted-Agrees :
      (c : System W) (s : StartInput)
      → Agrees c
      → find_existing s.scope_fingerprint s.action_key s.idempotency_key c.db.records ≡ none
      → Agrees (record c {
        db = insert_record s c.db;
        runs = running (new_record s c.db.next_id) ∷ c.runs;
      })
  unfolding insert_record
  inserted-Agrees c s g free = record {
    completed = g.completed;
    inv = start-Inv (view c g.completed) g.inv s free;
    applied_are = λ f a k. ground (arith, g.applied_are f a k);
  }

  start-Agrees :
      (c : System W) (s : StartInput) (row : IdempotencyRecordRow)
      → Agrees c
      → (try_start s c.db).0 ≡ some row
      → Agrees (record c { db = (try_start s c.db).1; runs = running row ∷ c.runs })
  start-Agrees c s row g h =
      let (free, same, inserted) = try_start-some s c.db row h in
      rw (inserted, same) (inserted-Agrees c s g free)

  Step-Agrees : {E : Type 0} {c d : System W} → Step E c d → Agrees c → Agrees d
  Step-Agrees {E} {c} (start s row h) g = start-Agrees c s row g h
  Step-Agrees {E} {c} (return before after row response world h) g =
      return-Agrees c g before after row response world h
  Step-Agrees {E} {c} (throw before after row error world h) g =
      throw-Agrees c g before after row error world h
  Step-Agrees {E} {c} (commit before after row response h) g =
      commit-Agrees c g before after row E response h
  Step-Agrees {E} {c} (lose before after row response error h) g =
      lose-Agrees c g before after row response error h

  Reach-Agrees : {E : Type 0} {w : W} {c : System W} → Reach E (idle w) c → Agrees c
  Reach-Agrees here = record { completed = []; inv = idle-Inv; applied_are = λ f a k. refl }
  Reach-Agrees (next r step) = Step-Agrees step (Reach-Agrees r)

  -- However requests interleave from the empty table, at any moment the handlers of a scope, action and key that are
  -- running or have succeeded are at most one more than those that succeeded and whose response the
  -- database then refused to record: where it refuses none, no command is applied twice, and none runs
  -- beside another run of it or after it was applied.
  pub Reach-at_most_once :
      (E : Type 0) (w : W) (c : System W)
      → Reach E (idle w) c
      → (f a k : Text)
      → count_running f a k c.runs + count_key f a k c.applied ≤ 1 + count_key f a k c.lost
  Reach-at_most_once E w c r f a k =
      let g = Reach-Agrees r in
      omega (
        arith,
        g.inv.one_row f a k,
        g.inv.running_rows f a k,
        g.inv.applied_rows f a k,
        g.applied_are f a k,
        count_key-rows_of f a k c.runs,
      )

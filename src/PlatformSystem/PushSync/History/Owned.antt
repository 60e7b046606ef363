-- ===== src/PlatformSystem/PushSync/History/Owned.antt =====
-- The row that a transaction of pushSync/api/router.ts starts is the row of its identity, also where it takes over an
-- expired lease, and completing it makes that row the answer.
use modula_backend.Common.{
  and_split, ℕ, Bool, true, false, ◌&&◌, ◌≡◌, refl, sym, ap, ◌∙◌, Option, none, some, Text, eq_iff,
  eqb, if◌then◌else◌, ok, arith, find_row, find_row_holds, find_row_updated, update_rows, ok-ne-err,
  ok-injective,
}
use modula_backend.PlatformSystem.PushSync.Rows.{OperationRow, SyncDb, ReplayResult}
use modula_backend.PlatformSystem.PushSync.Repository.{
  Started, Completion, has_identity, complete_operation, is_in_progress, expired, returning,
  may_reclaim, may_complete, complete_row, answer_row,
}
use modula_backend.PlatformSystem.PushSync.Resolution.{map_persisted_operation}
use modula_backend.PlatformSystem.PushSync.Execution.{
  ApplyOutcome, outcome_applied, outcome_failed, finish, completed_result, completion_of,
}
use modula_backend.PlatformSystem.PushSync.History.{Descending, found_once}

-- The row of an identity, that answers its result from now on.
pub record Remembered {P W : Type 0} (tenant branch op hash : Text) (r : ReplayResult)
    (db : SyncDb P W) : Type 0 where
  pub row : OperationRow P
  pub found : find_row (has_identity tenant branch op) db.operations ≡ some row
  pub settled : is_in_progress row.status ≡ false
  pub same_payload : row.payload_hash ≡ hash
  pub answers : r ≡ map_persisted_operation row

-- Where an operation was started, its identity finds its row.
pub record Owns {P W : Type 0} (tenant branch op hash : Text) (o : Started P × SyncDb P W)
    : Type 0 where
  pub found :
      o.0.started ≡ true → find_row (has_identity tenant branch op) o.1.operations ≡ some o.0.row
  pub same_payload : o.0.started ≡ true → o.0.row.payload_hash ≡ hash

eqb_eq : (a b : ℕ) → eqb a b ≡ true → a ≡ b
eqb_eq a b h = ground arith

completion_settles : (c : ApplyOutcome) → is_in_progress (completion_of c).status ≡ false
completion_settles (outcome_applied ref) = refl
completion_settles (outcome_failed code message) = refl

module _ {P : Type 0} where
  pub completes_own : (id : ℕ) (r : OperationRow P) → may_complete id r ≡ true → r.id ≡ id
  unfolding may_complete
  completes_own id r h = eqb_eq r.id id (and_split (eqb r.id id) _ h).0

  pub reclaims_own :
      (id : ℕ) (hash : Text) (now : ℕ) (r : OperationRow P)
      → may_reclaim id hash now r ≡ true
      → (r.id ≡ id) × (r.payload_hash ≡ hash)
  unfolding may_reclaim
  reclaims_own id hash now r h =
      let (open_, late) = and_split (eqb r.id id && is_in_progress r.status) _ h in
      (
        eqb_eq r.id id (and_split (eqb r.id id) _ open_).0,
        (eq_iff r.payload_hash hash).0 (and_split (expired now r.lease_expires_at) _ late).1,
      )

module _ {P W : Type 0} (tenant branch id hash : Text) where
  pub answered-Owns :
      (conflict : Bool) (o : Option (OperationRow P)) (row : OperationRow P) (db : SyncDb P W)
      → Owns tenant branch id hash (answer_row conflict o row, db)
  answered-Owns conflict none row db = record { found = λ h. cc; same_payload = λ h. cc }
  answered-Owns conflict (some latest) row db = record { found = λ h. cc; same_payload = λ h. cc }

  -- Exactly the update of the reclaimed row.
  pub reclaimed-Owns :
      (q : OperationRow P → Bool) (f : OperationRow P → OperationRow P) (n : ℕ)
      (row s : OperationRow P) (db : SyncDb P W)
      → ((x : OperationRow P)
          → has_identity tenant branch id (f x) ≡ has_identity tenant branch id x)
      → ((x : OperationRow P) → q x ≡ true → (x.id ≡ row.id) × ((f x).payload_hash ≡ hash))
      → Descending n db.operations
      → find_row (has_identity tenant branch id) db.operations ≡ some row
      → find_row q db.operations ≡ some s
      → Owns tenant branch id hash (
        record { row = f s; started = true; payload_conflict = false },
        record db { operations = update_rows q f db.operations },
      )
  reclaimed-Owns q f n row s db keeps own d found picked =
      let holds = find_row_holds q db.operations s picked in
      let same =
        found_once (has_identity tenant branch id) q n db.operations row s d found picked
          (sym (own s holds).0) in
      record {
        found = λ _.
            find_row_updated (has_identity tenant branch id) q f db.operations row keeps found
            ∙ (ap (λ (b : Bool). some (if b then f row else row)) (ap q same ∙ holds)
                ∙ ap (λ x. some (f x)) same);
        same_payload = λ _. (own s holds).1;
      }

  -- The row that the completion returns is the one that the identity finds.
  completed-Remembered :
      (op_id : ℕ) (c : Completion) (n : ℕ) (row : OperationRow P) (db : SyncDb P W)
      (r : ReplayResult) (o : Option (OperationRow P))
      → is_in_progress c.status ≡ false
      → Descending n db.operations
      → find_row (has_identity tenant branch id) db.operations ≡ some row
      → row.id ≡ op_id
      → row.payload_hash ≡ hash
      → find_row (may_complete op_id) db.operations ≡ o
      → (completed_result (
        returning (complete_row c) o,
        record db { operations = update_rows (may_complete op_id) (complete_row c) db.operations },
      )).0
        ≡ ok r
      → Remembered tenant branch id hash r
          (completed_result (
            returning (complete_row c) o,
            record db {
              operations = update_rows (may_complete op_id) (complete_row c) db.operations;
            },
          )).1
  unfolding has_identity
  completed-Remembered op_id c n row db r none closed d found own payload open_ h =
      absurd (ok-ne-err (sym h))
  completed-Remembered op_id c n row db r (some s) closed d found own payload open_ h =
      let holds = find_row_holds (may_complete op_id) db.operations s open_ in
      let same =
        found_once (has_identity tenant branch id) (may_complete op_id) n db.operations row s d
          found open_ (own ∙ sym (completes_own op_id s holds)) in
      record {
        row = complete_row c row;
        found =
            find_row_updated (has_identity tenant branch id) (may_complete op_id) (complete_row c)
              db.operations row (λ x. refl) found
            ∙ ap (λ (b : Bool). some (if b then complete_row c row else row))
                (ap (may_complete op_id) same ∙ holds);
        settled = closed;
        same_payload = payload;
        answers =
            sym (ok-injective h) ∙ ap (λ x. map_persisted_operation (complete_row c x)) (sym same);
      }

  pub finish-Remembered :
      (op_id : ℕ) (outcome : ApplyOutcome) (n : ℕ) (row : OperationRow P) (db : SyncDb P W)
      (r : ReplayResult)
      → Descending n db.operations
      → find_row (has_identity tenant branch id) db.operations ≡ some row
      → row.id ≡ op_id
      → row.payload_hash ≡ hash
      → (finish op_id outcome db).0 ≡ ok r
      → Remembered tenant branch id hash r (finish op_id outcome db).1
  unfolding finish complete_operation
  finish-Remembered op_id outcome n row db r d found own payload h =
      completed-Remembered op_id (completion_of outcome) n row db r _ (completion_settles outcome) d
        found own payload refl h

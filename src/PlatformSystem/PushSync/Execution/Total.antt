-- ===== src/PlatformSystem/PushSync/Execution/Total.antt =====
-- An operation of a batch always gets its result (pushSync/api/router.ts and infra/repository.ts): the row
-- that it starts can be completed.
use modula_backend.Common.{
  ℕ, Bool, true, false, ◌&&◌, ◌≡◌, refl, sym, ap, ◌∙◌, Option, none, some, List, [], ◌∷◌, Text,
  ◌==◌, Result, ok, Bool-cases, Option-cases, inl, inr, find_row, update_rows, is_some, eqb, arith,
  find_row_here, find_row_skip,
}
use modula_backend.PlatformSystem.PushSync.Rows.{
  OperationRow, SyncDb, Clock, ActorScope, ReplayOperation, ReplayResult,
}
use modula_backend.PlatformSystem.PushSync.Repository.{
  Started, find_operation_by_identity, try_start_operation, complete_operation, start_found,
  start_existing, reclaim_expired, after_reclaim, is_in_progress, expired, returning, reclaim_row,
  may_complete, new_operation, answer_row,
}
use modula_backend.PlatformSystem.PushSync.Execution.{
  Apply, Prior, ApplyOutcome, SyncFailure, execute_operation, after_start, after_dependencies,
  after_apply, finish,
}

eqb_refl : (n : ℕ) → eqb n n ≡ true
eqb_refl n = ground arith

-- Where an operation was started, its row can be completed.
pub record Completable {P W : Type 0} (o : Started P × SyncDb P W) : Type 0 where
  pub finds :
      o.0.started ≡ true → is_some (find_row (may_complete o.0.row.id) o.1.operations) ≡ true

module _ {P : Type 0} (q : OperationRow P → Bool) (f : OperationRow P → OperationRow P) where
  reclaimed_finds :
      (rows : List (OperationRow P)) (r : OperationRow P)
      → ((x : OperationRow P) → may_complete (f x).id (f x) ≡ true)
      → find_row q rows ≡ some r
      → is_some (find_row (may_complete (f r).id) (update_rows q f rows)) ≡ true
  reclaimed_finds [] r open_ h = cc
  reclaimed_finds (x ∷ rows) r open_ h = elim (Bool-cases (q x)) [
    | inl here ↦
        let e : ◌≡◌ {A = Option (OperationRow P)} (some x) (some r) =
          sym (find_row_here q x rows here) ∙ h in
        let same : x ≡ r = cc in
        rw here (rw (ap (λ y. may_complete (f y).id (f x)) (sym same) ∙ open_ x) refl)
    | inr skip ↦
        let later = reclaimed_finds rows r open_ (sym (find_row_skip q x rows skip) ∙ h) in
        elim (Bool-cases (may_complete (f r).id x)) [
          | inl found ↦ rw (skip, found) refl
          | inr missed ↦ rw (skip, missed) later
        ]
  ]

module _ {P : Type 0} where
  may_complete_reclaimed :
      (batch : ℕ) (op : ReplayOperation P) (lease now : ℕ) (x : OperationRow P)
      → may_complete x.id (reclaim_row batch op lease now x) ≡ true
  unfolding may_complete
  may_complete_reclaimed batch op lease now x = rw (eqb_refl x.id) refl

module _ {P W : Type 0} where
  answered-Completable :
      (conflict : Bool) (o : Option (OperationRow P)) (row : OperationRow P) (db : SyncDb P W)
      → Completable (answer_row conflict o row, db)
  answered-Completable conflict none row db = record { finds = λ h. cc }
  answered-Completable conflict (some latest) row db = record { finds = λ h. cc }

  after_reclaim-Completable :
      (actor : ActorScope) (id : Text) (existing : OperationRow P) (q : OperationRow P → Bool)
      (f : OperationRow P → OperationRow P) (o : Option (OperationRow P)) (db : SyncDb P W)
      → ((x : OperationRow P) → may_complete (f x).id (f x) ≡ true)
      → find_row q db.operations ≡ o
      → Completable (
          after_reclaim actor id existing
            (returning f o)
            (record db { operations = update_rows q f db.operations }))
  after_reclaim-Completable actor id existing q f none db open_ h =
      answered-Completable false
        (find_operation_by_identity actor.tenant_id actor.branch_id id
          (record db { operations = update_rows q f db.operations }))
        existing (record db { operations = update_rows q f db.operations })
  after_reclaim-Completable actor id existing q f (some r) db open_ h = record {
    finds = λ _. reclaimed_finds q f db.operations r open_ h;
  }

  start_existing-Completable :
      (batch : ℕ) (actor : ActorScope) (op : ReplayOperation P) (lease : ℕ) (clock : Clock)
      (row : OperationRow P) (db : SyncDb P W)
      → Completable (start_existing batch actor op lease clock row db)
  unfolding start_existing reclaim_expired
  start_existing-Completable batch actor op lease clock row db =
      elim (Bool-cases (row.payload_hash == op.payload_hash)) [
        | inr differs ↦ rw differs (answered-Completable true none row db)
        | inl same ↦
            elim (Bool-cases
              (is_in_progress row.status && expired clock.app_now row.lease_expires_at)) [
                | inl late ↦
                    rw (same, late)
                      (after_reclaim-Completable actor op.client_op_id row _
                        (reclaim_row batch op lease clock.db_now) _ db
                        (may_complete_reclaimed batch op lease clock.db_now) refl)
                | inr fresh ↦ rw (same, fresh) (answered-Completable false none row db)
              ]
      ]

  start_found-Completable :
      (batch : ℕ) (actor : ActorScope) (op : ReplayOperation P) (lease : ℕ) (clock : Clock)
      (o : Option (OperationRow P)) (db : SyncDb P W)
      → Completable (start_found batch actor op lease clock o db)
  unfolding may_complete new_operation
  start_found-Completable batch actor op lease clock none db = record {
    finds = λ _. rw (eqb_refl db.next_id) refl;
  }
  start_found-Completable batch actor op lease clock (some row) db =
      start_existing-Completable batch actor op lease clock row db

  -- The operation has a result.
  abbrev Answers : Result SyncFailure ReplayResult × SyncDb P W → Type 0
  Answers o = (r : ReplayResult) × (o.0 ≡ ok r)

  finish-Answers :
      (id : ℕ) (outcome : ApplyOutcome) (db : SyncDb P W)
      → is_some (find_row (may_complete id) db.operations) ≡ true
      → Answers (finish id outcome db)
  unfolding finish complete_operation
  finish-Answers id outcome db h = elim (Option-cases (find_row (may_complete id) db.operations)) [
    | inl missing ↦
        let e : is_some {A = OperationRow P} none ≡ true = ap is_some (sym missing) ∙ h in cc
    | inr (row, found) ↦ rw found (_, refl)
  ]

  after_apply-Answers :
      (id : ℕ) (o : Option ApplyOutcome × W) (db : SyncDb P W)
      → is_some o.0 ≡ true
      → is_some (find_row (may_complete id) db.operations) ≡ true
      → Answers (after_apply id o db)
  after_apply-Answers id (none, w) db a h = cc
  after_apply-Answers id (some outcome, w) db a h =
      finish-Answers id outcome (record db { world = w }) h

  module _ (apply : Apply P W)
      (total : (actor : ActorScope) (op : ReplayOperation P) (w : W)
        → is_some (apply actor op w).0 ≡ true) where
    after_dependencies-Answers :
        (actor : ActorScope) (op : ReplayOperation P) (id : ℕ) (o : Option Text) (db : SyncDb P W)
        → is_some (find_row (may_complete id) db.operations) ≡ true
        → Answers (after_dependencies apply actor op id o db)
    after_dependencies-Answers actor op id none db h =
        after_apply-Answers id (apply actor op db.world) db (total actor op db.world) h
    after_dependencies-Answers actor op id (some m) db h = finish-Answers id _ db h

    after_start-Answers :
        (actor : ActorScope) (op : ReplayOperation P) (prior : Prior) (o : Started P × SyncDb P W)
        → Completable o
        → Answers (after_start apply actor op prior o)
    after_start-Answers actor op prior (s, db) c = elim (Bool-cases s.started) [
      | inl began ↦ rw began (after_dependencies-Answers actor op s.row.id _ db (c.finds began))
      | inr answered ↦ rw answered (_, refl)
    ]

    pub execute_operation-Answers :
        (batch : ℕ) (actor : ActorScope) (op : ReplayOperation P) (lease : ℕ) (clock : Clock)
        (prior : Prior) (db : SyncDb P W)
        → (r : ReplayResult) × ((execute_operation apply batch actor op lease clock prior db).0
            ≡ ok r)
    unfolding execute_operation try_start_operation
    execute_operation-Answers batch actor op lease clock prior db =
        after_start-Answers actor op prior (try_start_operation batch actor op lease clock db)
          (start_found-Completable batch actor op lease clock _ db)

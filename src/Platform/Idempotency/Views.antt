-- ===== src/Platform/Idempotency/Views.antt =====
-- The table of records beside the rows that are being run and those that are completed
-- (platform/idempotency/repository.ts).
use modula_backend.Common.{
  ℕ, suc, ◌+◌, ◌≤◌, ◌≡◌, refl, none, List, [], ◌∷◌, ◌++◌, Text, All, All-map, arith, inl, inr, true,
  ap, ◌∙◌, eq_iff, subst,
}
use modula_backend.Platform.Idempotency.Records.{
  IdempotencyRecordRow, StartInput, has_identity, find_existing, new_record, complete,
  clear_processing, processing,
}
use modula_backend.Platform.Idempotency.Service.{Response}
use modula_backend.Platform.Idempotency.Invariant.{
  AllBelow, AllBelow-suc, complete-AllBelow, clear_processing-AllBelow,
}
use modula_backend.Platform.Idempotency.Interleaving.{count_key, count_processing, count_completed}
use modula_backend.Platform.Idempotency.Ledger.{
  HasNoId, HasDistinctIds, Holds, complete_moves, clear_moves, Holds-complete, Holds-clear,
  Holds-below, HasNoId-below, count_free, count_key-middle, All-middle, HasDistinctIds-middle,
}

abbrev IsHeld : List IdempotencyRecordRow → IdempotencyRecordRow → Type 0
IsHeld rows r = (r.status ≡ processing) × Holds r rows

-- The rows of the table, those whose runs are not over, and those that were completed.
pub record View : Type 0 where
  pub records : List IdempotencyRecordRow
  pub next_id : ℕ
  pub running : List IdempotencyRecordRow
  pub applied : List IdempotencyRecordRow

abbrev pub no_rows : View
no_rows = record { records = []; next_id = 0; running = []; applied = [] }

-- Each processing row of the table is one that is being run, each completed row is an applied one, and
-- no key has two rows.
pub record Inv (c : View) : Type 0 where
  pub running_rows : (f a k : Text) → count_processing f a k c.records ≡ count_key f a k c.running
  pub applied_rows : (f a k : Text) → count_completed f a k c.records ≡ count_key f a k c.applied
  pub one_row :
      (f a k : Text) → count_processing f a k c.records + count_completed f a k c.records ≤ 1
  pub held : All (IsHeld c.records) c.running
  pub distinct : HasDistinctIds c.running
  pub below : AllBelow c.next_id c.records

pub idle-Inv : Inv no_rows
idle-Inv = record {
  running_rows = λ f a k. refl;
  applied_rows = λ f a k. refl;
  one_row = λ f a k. omega arith;
  held = tt;
  distinct = tt;
  below = tt;
}

-- A started row has the key under which it was looked up.
new_record-free :
    (s : StartInput) (n : ℕ) (f a k : Text) (rows : List IdempotencyRecordRow)
    → find_existing s.scope_fingerprint s.action_key s.idempotency_key rows ≡ none
    → has_identity f a k (new_record s n) ≡ true
    → find_existing f a k rows ≡ none
unfolding has_identity new_record
new_record-free s n f a k rows free h =
    ground (arith, eq_iff s.scope_fingerprint f, eq_iff s.action_key a, eq_iff s.idempotency_key k)

module _ (c : View) (v : Inv c) where
  pub start-Inv :
      (s : StartInput)
      → find_existing s.scope_fingerprint s.action_key s.idempotency_key c.records ≡ none
      → Inv (record {
        records = new_record s c.next_id ∷ c.records;
        next_id = suc c.next_id;
        running = new_record s c.next_id ∷ c.running;
        applied = c.applied;
      })
  unfolding new_record
  start-Inv s free = record {
    running_rows = λ f a k. ground (arith, v.running_rows f a k);
    applied_rows = λ f a k. ground (arith, v.applied_rows f a k);
    one_row = λ f a k. ground (
      arith,
      v.one_row f a k,
      new_record-free s c.next_id f a k c.records free,
      count_free f a k c.records,
    );
    held = (
      (refl, inl (refl, HasNoId-below c.next_id c.records v.below)),
      All-map
          (λ r h.
            (h.0, inr ((λ e. ground (arith, Holds-below c.next_id r c.records v.below h.1)), h.1)))
          c.running v.held,
    );
    distinct = (
      All-map (λ r h e. ground (arith, Holds-below c.next_id r c.records v.below h.1)) c.running
          v.held,
      v.distinct,
    );
    below = (omega arith, AllBelow-suc c.next_id c.records v.below);
  }

  module _ (before after : List IdempotencyRecordRow) (row : IdempotencyRecordRow)
      (split : c.running ≡ before ++ (row ∷ after)) where
    others :
        All (IsHeld c.records) (before ++ after)
        × HasNoId row.id (before ++ after)
        × HasDistinctIds (before ++ after)
    others =
        let held =
          All-middle row after (IsHeld c.records) before
            (subst (All (IsHeld c.records)) split v.held) in
        let apart =
          HasDistinctIds-middle row after before (subst HasDistinctIds split v.distinct) in
        (held.1, apart.0, apart.1)

    row-IsHeld : IsHeld c.records row
    row-IsHeld =
        (All-middle row after (IsHeld c.records) before
          (subst (All (IsHeld c.records)) split v.held)).0

    running_count :
        (f a k : Text)
        → count_key f a k c.running ≡ count_key f a k (row ∷ []) + count_key f a k (before ++ after)
    running_count f a k = ap (count_key f a k) split ∙ count_key-middle row after f a k before

    keep_complete :
        (response : Response) (rows : List IdempotencyRecordRow)
        → All (IsHeld c.records) rows
        → HasNoId row.id rows
        → All (IsHeld (complete row.id response.status_code response.body c.records)) rows
    keep_complete response [] h ne = tt
    keep_complete response (r ∷ rows) h ne = (
      (h.0.0, Holds-complete r row ne.0 response.status_code response.body c.records h.0.1),
      keep_complete response rows h.1 ne.1,
    )

    keep_clear :
        (rows : List IdempotencyRecordRow)
        → All (IsHeld c.records) rows
        → HasNoId row.id rows
        → All (IsHeld (clear_processing row.id c.records)) rows
    keep_clear [] h ne = tt
    keep_clear (r ∷ rows) h ne =
        ((h.0.0, Holds-clear r row ne.0 c.records h.0.1), keep_clear rows h.1 ne.1)

    pub commit-Inv :
        (response : Response)
        → Inv (record {
          records = complete row.id response.status_code response.body c.records;
          next_id = c.next_id;
          running = before ++ after;
          applied = row ∷ c.applied;
        })
    commit-Inv response =
        let moves = λ (f a k : Text).
          complete_moves f a k row row-IsHeld.0 response.status_code response.body c.records
            row-IsHeld.1 in
        record {
          running_rows =
              λ f a k. omega (arith, moves f a k, running_count f a k, v.running_rows f a k);
          applied_rows = λ f a k. omega (arith, moves f a k, v.applied_rows f a k);
          one_row = λ f a k. omega (arith, moves f a k, v.one_row f a k);
          held = keep_complete response (before ++ after) others.0 others.1;
          distinct = others.2;
          below =
              complete-AllBelow c.next_id row.id response.status_code response.body c.records
                v.below;
        }

    pub abort-Inv : Inv (record {
      records = clear_processing row.id c.records;
      next_id = c.next_id;
      running = before ++ after;
      applied = c.applied;
    })
    abort-Inv =
        let moves = λ (f a k : Text). clear_moves f a k row row-IsHeld.0 c.records row-IsHeld.1 in
        record {
          running_rows =
              λ f a k. omega (arith, moves f a k, running_count f a k, v.running_rows f a k);
          applied_rows = λ f a k. omega (arith, moves f a k, v.applied_rows f a k);
          one_row = λ f a k. omega (arith, moves f a k, v.one_row f a k);
          held = keep_clear (before ++ after) others.0 others.1;
          distinct = others.2;
          below = clear_processing-AllBelow c.next_id row.id c.records v.below;
        }

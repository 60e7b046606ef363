-- ===== src/Platform/Outbox/Dispatcher/Poisoned.antt =====
-- A batch of events that are never handled (platform/outbox/dispatcher.ts): the dispatcher loads the oldest pending
-- events again and again, however often they have failed.
use modula_backend.Common.{
  ℕ, zero, suc, Bool, false, ◌≡◌, refl, sym, ap, subst, ◌∙◌, List, [], ◌∷◌, eqb, leb, take, select,
  map, update_rows, All, Bool-cases, inl, inr,
}
use modula_backend.Platform.Outbox.Rows.{OutboxRow}
use modula_backend.Platform.Outbox.Bus.{Bus}
use modula_backend.Platform.Outbox.Dispatcher.{
  Summary, is_pending, insert_ordered, order_rows, load_batch, mark, counted, publish_row,
  process_rows, process_batch, end_tick, run_tick,
}

module _ {P : Type 0} where
  -- A row without the count of its failures.
  abbrev pub core : OutboxRow P → OutboxRow P
  core r = record r { retry_count = 0 }

  core_failed :
      (now id : ℕ) (rows : List (OutboxRow P))
      → map core (update_rows (λ r. eqb r.id id) (mark now false) rows) ≡ map core rows
  core_failed now id [] = refl
  core_failed now id (r ∷ rows) = elim (Bool-cases (eqb r.id id)) [
    | inl picked ↦ rw picked (ap (λ l. core r ∷ l) (core_failed now id rows))
    | inr passed ↦ rw passed (ap (λ l. core r ∷ l) (core_failed now id rows))
  ]

  pub select-core :
      (rows : List (OutboxRow P))
      → select is_pending (map core rows) ≡ map core (select is_pending rows)
  select-core [] = refl
  select-core (r ∷ rows) = elim (Bool-cases (is_pending r)) [
    | inl waits ↦ rw waits (ap (λ l. core r ∷ l) (select-core rows))
    | inr settled ↦ rw settled (select-core rows)
  ]

  insert_core :
      (r : OutboxRow P) (xs : List (OutboxRow P))
      → insert_ordered (core r) (map core xs) ≡ map core (insert_ordered r xs)
  insert_core r [] = refl
  insert_core r (x ∷ xs) = elim (Bool-cases (leb r.created_at x.created_at)) [
    | inl first ↦ rw first refl
    | inr later ↦ rw later (ap (λ l. core x ∷ l) (insert_core r xs))
  ]

  order_core : (xs : List (OutboxRow P)) → order_rows (map core xs) ≡ map core (order_rows xs)
  order_core [] = refl
  order_core (x ∷ xs) =
      ap (λ l. insert_ordered (core x) l) (order_core xs) ∙ insert_core x (order_rows xs)

  take-core : (n : ℕ) (xs : List (OutboxRow P)) → take n (map core xs) ≡ map core (take n xs)
  take-core zero xs = refl
  take-core (suc n) [] = refl
  take-core (suc n) (x ∷ xs) = ap (λ l. core x ∷ l) (take-core n xs)

  -- What is loaded does not depend on the failures.
  load_batch-core :
      (n : ℕ) (rows : List (OutboxRow P))
      → load_batch n (map core rows) ≡ map core (load_batch n rows)
  unfolding load_batch
  load_batch-core n rows =
      ap (λ l. take n (order_rows l)) (select-core rows)
      ∙ (ap (λ l. take n l) (order_core (select is_pending rows))
          ∙ take-core n (order_rows (select is_pending rows)))

module _ {P W : Type 0} (bus : Bus P W) where
  -- A handler of the event throws, whatever the world is.
  abbrev pub Throws : OutboxRow P → Type 0
  Throws r = (w : W) → (publish_row bus r w).0 ≡ false

  core-Throws : (r : OutboxRow P) → Throws (core r) → Throws r
  unfolding publish_row
  core-Throws r h = h

  Throws-core : (rows : List (OutboxRow P)) → All Throws (map core rows) → All Throws rows
  Throws-core [] h = tt
  Throws-core (r ∷ rows) h = (core-Throws r h.0, Throws-core rows h.1)

  core-All : (rows : List (OutboxRow P)) → All Throws rows → All Throws (map core rows)
  unfolding publish_row
  core-All [] h = tt
  core-All (r ∷ rows) h = (h.0, core-All rows h.1)

  module _ (accepts : ℕ → Bool) (now : ℕ) (before : List (OutboxRow P)) where
    process_rows-core :
        (loaded : List (OutboxRow P)) (s : Summary) (rows : List (OutboxRow P)) (w : W)
        → All Throws loaded
        → map core rows ≡ map core before
        → map core (end_tick before (process_rows bus accepts now loaded s rows w)).0
          ≡ map core before
    unfolding process_rows
    process_rows-core [] s rows w t h = h
    process_rows-core (r ∷ loaded) s rows w t h = elim (Bool-cases (accepts r.id)) [
      | inr refused ↦ rw refused refl
      | inl taken ↦
          rw (taken, t.0 w)
            (process_rows-core loaded (counted false s)
              (update_rows (λ x. eqb x.id r.id) (mark now false) rows) (publish_row bus r w).1 t.1
              (core_failed now r.id rows ∙ h))
    ]

  pub run_tick-core :
      (accepts : ℕ → Bool) (now n : ℕ) (rows : List (OutboxRow P)) (w : W)
      → All Throws (load_batch n rows)
      → map core (run_tick bus accepts now n (rows, w)).0 ≡ map core rows
  unfolding run_tick process_batch
  run_tick-core accepts now n rows w t =
      process_rows-core accepts now rows (load_batch n rows) _ rows w t refl

  -- The batch is the same one as long as the rows are the same but for their failures.
  pub stays_poisoned :
      (n : ℕ) (rows rows' : List (OutboxRow P))
      → map core rows' ≡ map core rows
      → All Throws (load_batch n rows)
      → All Throws (load_batch n rows')
  stays_poisoned n rows rows' same t = Throws-core (load_batch n rows') (
      subst (All Throws)
        (sym (sym (load_batch-core n rows') ∙ (ap (load_batch n) same ∙ load_batch-core n rows)))
        (core-All (load_batch n rows) t))

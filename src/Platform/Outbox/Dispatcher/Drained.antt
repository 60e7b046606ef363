-- ===== src/Platform/Outbox/Dispatcher/Drained.antt =====
-- The backlog of the dispatcher (platform/outbox/dispatcher.ts) where no handler throws.
use modula_backend.Common.{
  ℕ, zero, suc, ◌≤◌, ◌<◌, Bool, true, false, ◌≡◌, ◌⊎◌, refl, ap, ◌∙◌, List, [], ◌∷◌, eqb, leb,
  length, take, select, update_rows, if◌then◌else◌, All, Bool-cases, inl, inr, arith,
}
use modula_backend.Platform.Outbox.Rows.{OutboxRow}
use modula_backend.Platform.Outbox.Bus.{Bus}
use modula_backend.Platform.Outbox.Dispatcher.{
  Summary, is_pending, insert_ordered, order_rows, load_batch, mark, counted, publish_row,
  process_rows, process_batch, end_tick, run_tick, run_ticks,
}

-- How many events wait.
abbrev pub backlog : {P : Type 0} → List (OutboxRow P) → ℕ
backlog rows = length (select is_pending rows)

data Occurs {P : Type 0} (r : OutboxRow P) : List (OutboxRow P) → Type 0 where
  here : {rows : List (OutboxRow P)} → Occurs r (r ∷ rows)
  there : {x : OutboxRow P} {rows : List (OutboxRow P)} → Occurs r rows → Occurs r (x ∷ rows)

-- A pending row of the table.
record Waits {P : Type 0} (rows : List (OutboxRow P)) (r : OutboxRow P) : Type 0 where
  occurs : Occurs r rows
  pending : is_pending r ≡ true

module _ {P : Type 0} where
  backlog_head : (x : OutboxRow P) (rows : List (OutboxRow P)) → backlog rows ≤ backlog (x ∷ rows)
  backlog_head x rows = elim (Bool-cases (is_pending x)) [
    | inl waits ↦ rw waits (omega arith)
    | inr done ↦ rw done (omega arith)
  ]

  marked_pending :
      (now : ℕ) (done : Bool) (q : Bool) (x : OutboxRow P)
      → is_pending x ≡ false
      → is_pending (if q then mark now done x else x) ≡ false
  marked_pending now true true x h = refl
  marked_pending now false true x h = h
  marked_pending now done false x h = h

  -- Marking rows never makes an event wait.
  backlog-mark :
      (now id : ℕ) (done : Bool) (rows : List (OutboxRow P))
      → backlog (update_rows (λ r. eqb r.id id) (mark now done) rows) ≤ backlog rows
  backlog-mark now id done [] = omega arith
  backlog-mark now id done (x ∷ rows) =
      let ih = backlog-mark now id done rows in
      elim (Bool-cases (is_pending x)) [
        | inr settled ↦ rw (settled, marked_pending now done (eqb x.id id) x settled) ih
        | inl waits ↦ elim (Bool-cases (is_pending (if eqb x.id id then mark now done x else x))) [
          | inl still ↦ rw (waits, still) (omega (arith, ih))
          | inr settled ↦ rw (waits, settled) (omega (arith, ih))
        ]
      ]

  -- Publishing a waiting row shortens the backlog.
  backlog_published :
      (now : ℕ) (r : OutboxRow P) (rows : List (OutboxRow P))
      → Occurs r rows
      → is_pending r ≡ true
      → backlog (update_rows (λ x. eqb x.id r.id) (mark now true) rows) < backlog rows
  backlog_published now r [] o h = elim o [ ]
  backlog_published now r (x ∷ rows) here h =
      let same : eqb r.id r.id ≡ true = ground arith in
      rw (same, h) (omega (arith, backlog-mark now r.id true rows))
  backlog_published now r (x ∷ rows) (there o) h =
      let ih = backlog_published now r rows o h in
      elim (Bool-cases (is_pending x)) [
        | inr settled ↦ rw (settled, marked_pending now true (eqb x.id r.id) x settled) ih
        | inl waits ↦
            elim (Bool-cases (is_pending (if eqb x.id r.id then mark now true x else x))) [
              | inl still ↦ rw (waits, still) (omega (arith, ih))
              | inr settled ↦ rw (waits, settled) (omega (arith, ih))
            ]
      ]

  select_waiting :
      (xs rows : List (OutboxRow P))
      → ((r : OutboxRow P) → Occurs r xs → Occurs r rows)
      → All (Waits rows) (select is_pending xs)
  select_waiting [] rows h = tt
  select_waiting (x ∷ xs) rows h = elim (Bool-cases (is_pending x)) [
    | inl waits ↦ rw waits (
      record { occurs = h x here; pending = waits },
      select_waiting xs rows (λ r o. h r (there o)),
    )
    | inr settled ↦ rw settled (select_waiting xs rows (λ r o. h r (there o)))
  ]

  module _ (Q : OutboxRow P → Type 0) where
    insert-All :
        (r : OutboxRow P) (xs : List (OutboxRow P)) → Q r → All Q xs → All Q (insert_ordered r xs)
    insert-All r [] q h = (q, tt)
    insert-All r (x ∷ xs) q h = elim (Bool-cases (leb r.created_at x.created_at)) [
      | inl first ↦ rw first (q, h)
      | inr later ↦ rw later (h.0, insert-All r xs q h.1)
    ]

    order-All : (xs : List (OutboxRow P)) → All Q xs → All Q (order_rows xs)
    order-All [] h = tt
    order-All (x ∷ xs) h = insert-All x (order_rows xs) h.0 (order-All xs h.1)

    take-All : (n : ℕ) (xs : List (OutboxRow P)) → All Q xs → All Q (take n xs)
    take-All zero xs h = tt
    take-All (suc n) [] h = tt
    take-All (suc n) (x ∷ xs) h = (h.0, take-All n xs h.1)

  insert_length :
      (r : OutboxRow P) (xs : List (OutboxRow P)) → length (insert_ordered r xs) ≡ suc (length xs)
  insert_length r [] = refl
  insert_length r (x ∷ xs) = elim (Bool-cases (leb r.created_at x.created_at)) [
    | inl first ↦ rw first refl
    | inr later ↦ rw later (ap (λ n. suc n) (insert_length r xs))
  ]

  order_length : (xs : List (OutboxRow P)) → length (order_rows xs) ≡ length xs
  order_length [] = refl
  order_length (x ∷ xs) = insert_length x (order_rows xs) ∙ ap (λ n. suc n) (order_length xs)

  take_some : (n : ℕ) (xs : List (OutboxRow P)) → 1 ≤ length xs → 1 ≤ length (take (suc n) xs)
  take_some n [] h = h
  take_some n (x ∷ xs) h = omega arith

  load_batch-Waits : (n : ℕ) (rows : List (OutboxRow P)) → All (Waits rows) (load_batch n rows)
  unfolding load_batch
  load_batch-Waits n rows =
      take-All (Waits rows) n _ (order-All (Waits rows) _ (select_waiting rows rows (λ r o. o)))

  loads_some :
      (n : ℕ) (rows : List (OutboxRow P)) → 1 ≤ backlog rows → 1 ≤ length (load_batch (suc n) rows)
  unfolding load_batch
  loads_some n rows h =
      take_some n (order_rows (select is_pending rows))
        (omega (arith, h, order_length (select is_pending rows)))

zero_or : (n : ℕ) → (n ≡ 0) ⊎ (1 ≤ n)
zero_or zero = inl refl
zero_or (suc n) = inr (omega arith)

module _ {P W : Type 0} (bus : Bus P W) (accepts : ℕ → Bool)
    (taken : (id : ℕ) → accepts id ≡ true) where
  backlog-process_rows :
      (now : ℕ) (before loaded : List (OutboxRow P)) (s : Summary) (rows : List (OutboxRow P))
      (w : W)
      → backlog (end_tick before (process_rows bus accepts now loaded s rows w)).0 ≤ backlog rows
  unfolding process_rows
  backlog-process_rows now before [] s rows w = omega arith
  backlog-process_rows now before (r ∷ loaded) s rows w =
      let (done, w') = publish_row bus r w in
      let rows' = update_rows (λ x. eqb x.id r.id) (mark now done) rows in
      rw (taken r.id) (
        omega (
          arith,
          backlog-process_rows now before loaded (counted done s) rows' w',
          backlog-mark now r.id done rows,
        ))

  module _ (returns : (r : OutboxRow P) (w : W) → (publish_row bus r w).0 ≡ true) where
    first_published :
        (now : ℕ) (before loaded : List (OutboxRow P)) (s : Summary) (rows : List (OutboxRow P))
        (w : W)
        → All (Waits rows) loaded
        → 1 ≤ length loaded
        → backlog (end_tick before (process_rows bus accepts now loaded s rows w)).0 < backlog rows
    unfolding process_rows
    first_published now before [] s rows w a h = absurd (omega (arith, h))
    first_published now before (r ∷ loaded) s rows w a h =
        let w' = (publish_row bus r w).1 in
        let rows' = update_rows (λ x. eqb x.id r.id) (mark now true) rows in
        rw (taken r.id, returns r w)
          (omega (
            arith,
            backlog-process_rows now before loaded (counted true s) rows' w',
            backlog_published now r rows (a.0).occurs (a.0).pending,
          ))

    backlog-run_tick :
        (now n : ℕ) (rows : List (OutboxRow P)) (w : W) (k : ℕ)
        → backlog rows ≤ suc k
        → backlog (run_tick bus accepts now (suc n) (rows, w)).0 ≤ k
    unfolding run_tick process_batch
    backlog-run_tick now n rows w k h =
        let loaded = load_batch (suc n) rows in
        let start : Summary = record {
          loaded_count = length loaded;
          published_count = 0;
          failed_count = 0;
          backlog_count = length (select is_pending rows);
        } in
        elim (zero_or (backlog rows)) [
          | inl nothing ↦ omega (arith, nothing, backlog-process_rows now rows loaded start rows w)
          | inr waiting ↦ omega (
            arith,
            h,
            first_published now rows loaded start rows w (load_batch-Waits (suc n) rows)
                (loads_some n rows waiting),
          )
        ]

    -- Where every handler returns and every update is taken, as many ticks as there are pending events
    -- publish them all, whatever the times and the size of a batch, if it is not zero.
    pub backlog-run_ticks :
        (n : ℕ) (times : List ℕ) (o : List (OutboxRow P) × W)
        → backlog o.0 ≤ length times
        → backlog (run_ticks bus accepts (suc n) times o).0 ≡ 0
    unfolding run_ticks
    backlog-run_ticks n [] o h = omega (arith, h)
    backlog-run_ticks n (now ∷ times) o h =
        backlog-run_ticks n times (run_tick bus accepts now (suc n) o)
          (backlog-run_tick now n o.0 o.1 (length times) h)

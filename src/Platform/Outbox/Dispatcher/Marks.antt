-- ===== src/Platform/Outbox/Dispatcher/Marks.antt =====
-- When the dispatcher marks an event as published (platform/outbox/dispatcher.ts).
use modula_backend.Common.{subst, Text, ◌==◌}
use modula_backend.Common.{
  ℕ, Bool, true, false, ◌≡◌, ◌≢◌, ◌⊎◌, inl, inr, refl, sym, ap, ◌∙◌, List, [], ◌∷◌, eqb,
  update_rows, Result, All, Bool-cases, arith,
}
use modula_backend.Platform.Outbox.Rows.{OutboxRow}
use modula_backend.Platform.Outbox.Bus.{Bus, Subscription, OutboxEvent, also, publish}
use modula_backend.Platform.Outbox.Dispatcher.{
  get_compatibility_event_types, event_of, published_then, publish_types, TickFailure, Summary,
  is_pending, load_batch, mark, counted, publish_row, after_publish, process_rows, process_batch,
  end_tick, run_tick,
}

-- The rows with this id are not published.
abbrev pub PendingAt : {P : Type 0} → ℕ → List (OutboxRow P) → Type 0
PendingAt id rows = All (λ r. r.id ≡ id → is_pending r ≡ true) rows

module _ {W : Type 0} where
  also-true :
      (rest : W → Bool × W) (o : Bool × W)
      → (also rest o).0 ≡ true
      → (o.0 ≡ true) × ((rest o.1).0 ≡ true) × ((also rest o).1 ≡ (rest o.1).1)
  also-true rest o h = ground arith

  then_true :
      (rest : W → Bool × W) (o : Bool × W)
      → (published_then rest o).0 ≡ true
      → (o.0 ≡ true) × ((rest o.1).0 ≡ true) × ((published_then rest o).1 ≡ (rest o.1).1)
  then_true rest o h = ground arith

module _ {P W : Type 0} where
  -- From one world to another, the handlers that are subscribed to the type of an event have run one after the other, and
  -- each has returned.
  pub data Handled (event : OutboxEvent P) : Bus P W → W → W → Type 0 where
    end : {w : W} → Handled event [] w w
    skip :
        {s : Subscription P W} {bus : Bus P W} {w w' : W}
        → (s.event_type == event.event_type) ≡ false
        → Handled event bus w w'
        → Handled event (s ∷ bus) w w'
    run :
        {s : Subscription P W} {bus : Bus P W} {w w' : W}
        → (s.event_type == event.event_type) ≡ true
        → (s.handler event w).0 ≡ true
        → Handled event bus (s.handler event w).1 w'
        → Handled event (s ∷ bus) w w'

  -- The same for an event under several types.
  pub data HandledAs (bus : Bus P W) (event : OutboxEvent P) : List Text → W → W → Type 0 where
    last : {w : W} → HandledAs bus event [] w w
    under :
        {t : Text} {types : List Text} {w v w' : W}
        → Handled (record event { event_type = t }) bus w v
        → HandledAs bus event types v w'
        → HandledAs bus event (t ∷ types) w w'

  -- In the course of a tick that begins in a world, a loaded row with this id is handled under its type and the types
  -- that stand for it.
  pub data Delivered (bus : Bus P W) (id : ℕ) : List (OutboxRow P) → W → Type 0 where
    here :
        {r : OutboxRow P} {rows : List (OutboxRow P)} {w w' : W}
        → r.id ≡ id
        → HandledAs bus
            (event_of r)
            (r.event_type ∷ get_compatibility_event_types r.event_type)
            w
            w'
        → Delivered bus id (r ∷ rows) w
    there :
        {r : OutboxRow P} {rows : List (OutboxRow P)} {w : W}
        → Delivered bus id rows (publish_row bus r w).1
        → Delivered bus id (r ∷ rows) w

  publish-Handled :
      (bus : Bus P W) (event : OutboxEvent P) (w : W)
      → (publish bus event w).0 ≡ true
      → Handled event bus w (publish bus event w).1
  unfolding publish
  publish-Handled [] event w h = end
  publish-Handled (s ∷ bus) event w h = elim (Bool-cases (s.event_type == event.event_type)) [
    | inr other ↦ rw other (skip other (publish-Handled bus event w (rw other at h)))
    | inl same ↦
        let (returned, rest, e) =
          also-true (λ v. publish bus event v) (s.handler event w) (rw same at h) in
        rw (same, e) (run same returned (publish-Handled bus event (s.handler event w).1 rest))
  ]

  publish_types-HandledAs :
      (bus : Bus P W) (types : List Text) (event : OutboxEvent P) (w : W)
      → (publish_types bus types event w).0 ≡ true
      → HandledAs bus event types w (publish_types bus types event w).1
  unfolding publish_types
  publish_types-HandledAs bus [] event w h = last
  publish_types-HandledAs bus (t ∷ types) event w h =
      let o = publish bus (record event { event_type = t }) w in
      let (returned, rest, e) = then_true (λ v. publish_types bus types event v) o h in
      rw e (
        under (publish-Handled bus (record event { event_type = t }) w returned)
          (publish_types-HandledAs bus types event o.1 rest))

  publish_row-HandledAs :
      (bus : Bus P W) (r : OutboxRow P) (w : W)
      → (publish_row bus r w).0 ≡ true
      → HandledAs bus
          (event_of r)
          (r.event_type ∷ get_compatibility_event_types r.event_type)
          w
          (publish_row bus r w).1
  unfolding publish_row
  publish_row-HandledAs bus r w h = publish_types-HandledAs bus _ (event_of r) w h

module _ {P : Type 0} (id now : ℕ) where
  failed-PendingAt :
      (i : ℕ) (rows : List (OutboxRow P))
      → PendingAt id rows
      → PendingAt id (update_rows (λ r. eqb r.id i) (mark now false) rows)
  failed-PendingAt i [] h = tt
  failed-PendingAt i (r ∷ rows) h = elim (Bool-cases (eqb r.id i)) [
    | inl picked ↦ rw picked (h.0, failed-PendingAt i rows h.1)
    | inr passed ↦ rw passed (h.0, failed-PendingAt i rows h.1)
  ]

  other-PendingAt :
      (i : ℕ) (done : Bool) (rows : List (OutboxRow P))
      → i ≢ id
      → PendingAt id rows
      → PendingAt id (update_rows (λ r. eqb r.id i) (mark now done) rows)
  other-PendingAt i false rows other h = failed-PendingAt i rows h
  other-PendingAt i true [] other h = tt
  other-PendingAt i true (r ∷ rows) other h = elim (Bool-cases (eqb r.id i)) [
    | inl picked ↦
        let same : r.id ≡ i = ground arith in
        rw picked ((λ e. absurd (other (sym same ∙ e))), other-PendingAt i true rows other h.1)
    | inr passed ↦ rw passed (h.0, other-PendingAt i true rows other h.1)
  ]

-- Still pending, or delivered.
abbrev Accounted :
    {P W : Type 0}
    → Bus P W
    → ℕ
    → List (OutboxRow P)
    → List (OutboxRow P)
    → W
    → Result TickFailure Summary × (List (OutboxRow P) × W)
    → Type 0
Accounted bus id before loaded w o = PendingAt id (end_tick before o).0 ⊎ Delivered bus id loaded w

module _ {P W : Type 0} (bus : Bus P W) (accepts : ℕ → Bool) (now id : ℕ)
    (before : List (OutboxRow P)) (pending : PendingAt id before) where
  step_on :
      {T : Type 0} (r : OutboxRow P) (rest : List (OutboxRow P)) (w w' : W)
      → (publish_row bus r w).1 ≡ w'
      → T ⊎ Delivered bus id rest w'
      → T ⊎ Delivered bus id (r ∷ rest) w
  step_on r rest w w' e (inl h) = inl h
  step_on r rest w w' e (inr h) = inr (there (subst (Delivered bus id rest) (sym e) h))

  after_publish-Accounted :
      (r : OutboxRow P) (rest : List (OutboxRow P)) (s : Summary) (rows : List (OutboxRow P))
      (w : W) (o : Bool × W)
      → publish_row bus r w ≡ o
      → PendingAt id rows
      → ((s' : Summary) (rows' : List (OutboxRow P)) (w' : W)
          → PendingAt id rows'
          → Accounted bus id before rest w' (process_rows bus accepts now rest s' rows' w'))
      → Accounted bus id before (r ∷ rest) w (
          after_publish
            (λ s' rows' w'. process_rows bus accepts now rest s' rows' w')
            accepts
            now
            r.id
            s
            rows
            o)
  after_publish-Accounted r rest s rows w (done, w') e h ih = elim (Bool-cases (accepts r.id)) [
    | inr refused ↦ rw refused (inl pending)
    | inl taken ↦ rw taken (elim (Bool-cases (eqb r.id id)) [
      | inr other ↦
          let differs : r.id ≢ id =
            λ same. let t : eqb r.id id ≡ true = ground (arith, same) in cc in
          step_on r rest w w' (ap (λ o. o.1) e)
            (ih (counted done s) _ w' (other-PendingAt id now r.id done rows differs h))
      | inl same ↦ elim (Bool-cases done) [
        | inl returned ↦ inr (
            here (ground (arith, same))
              (publish_row-HandledAs bus r w (ap (λ o. o.0) e ∙ returned)))
        | inr threw ↦ rw threw (
            step_on r rest w w' (ap (λ o. o.1) e)
              (ih (counted false s) _ w' (failed-PendingAt id now r.id rows h)))
      ]
    ])
  ]

  process_rows-Accounted :
      (loaded : List (OutboxRow P)) (s : Summary) (rows : List (OutboxRow P)) (w : W)
      → PendingAt id rows
      → Accounted bus id before loaded w (process_rows bus accepts now loaded s rows w)
  unfolding process_rows
  process_rows-Accounted [] s rows w h = inl h
  process_rows-Accounted (r ∷ loaded) s rows w h =
      after_publish-Accounted r loaded s rows w (publish_row bus r w) refl h
        (λ s' rows' w' h'. process_rows-Accounted loaded s' rows' w' h')

  -- An event is published only after it is handled: after a tick, the rows with a given id are still all
  -- pending if they were, or in this tick, from the world that it began in, every handler that is
  -- subscribed to the type of a loaded row with that id or to a type that stands for it was called and
  -- returned. A tick whose updates are refused leaves them pending.
  pub run_tick-Delivered :
      (batch_size : ℕ) (w : W)
      → PendingAt id (run_tick bus accepts now batch_size (before, w)).0
        ⊎ Delivered bus id (load_batch batch_size before) w
  unfolding run_tick process_batch
  run_tick-Delivered batch_size w =
      process_rows-Accounted (load_batch batch_size before) _ before w pending

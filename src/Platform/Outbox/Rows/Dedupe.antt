-- ===== src/Platform/Outbox/Rows/Dedupe.antt =====
-- Deduplication of events (the partial unique index of v0_command_outbox, platform/outbox/repository.ts).
use modula_backend.Common.{
  ℕ, Bool, true, ◌≡◌, refl, sym, ap, ◌∙◌, none, some, List, [], ◌∷◌, ◌++◌, Text, eq_refl, is_some,
  find_row, Bool-cases, inl, inr,
}
use modula_backend.Platform.Outbox.Rows.{
  OutboxRow, EventInput, has_dedupe_key, new_event, insert_event,
}

module _ {P : Type 0} where
  found_last :
      (p : OutboxRow P → Bool) (rows : List (OutboxRow P)) (x : OutboxRow P)
      → p x ≡ true
      → is_some (find_row p (rows ++ (x ∷ []))) ≡ true
  found_last p [] x h = rw h refl
  found_last p (y ∷ rows) x h = elim (Bool-cases (p y)) [
    | inl here ↦ rw here refl
    | inr skip ↦ rw skip (found_last p rows x h)
  ]

  keyed :
      (empty : P) (input : EventInput P) (k : Text) (id now : ℕ)
      → input.dedupe_key ≡ some k
      → has_dedupe_key input.tenant_id (some k) (new_event empty input id now) ≡ true
  unfolding has_dedupe_key new_event
  keyed empty input k id now h = rw (eq_refl input.tenant_id, h) (eq_refl k)

  taken_key :
      (empty : P) (input : EventInput P) (k : Text) (id now : ℕ) (rows : List (OutboxRow P))
      → input.dedupe_key ≡ some k
      → is_some (
          find_row
            (has_dedupe_key input.tenant_id (some k))
            (insert_event empty input id now rows).1)
        ≡ true
  unfolding insert_event
  taken_key empty input k id now rows h =
      elim (Bool-cases
        (is_some (find_row (has_dedupe_key input.tenant_id input.dedupe_key) rows))) [
          | inl held ↦ rw held (
              ap (λ key. is_some (find_row (has_dedupe_key input.tenant_id key) rows)) (sym h)
              ∙ held)
          | inr free ↦ rw free (
              found_last (has_dedupe_key input.tenant_id (some k)) rows _
                (keyed empty input k id now h))
        ]

  refused :
      (empty : P) (input : EventInput P) (id now : ℕ) (rows : List (OutboxRow P))
      → is_some (find_row (has_dedupe_key input.tenant_id input.dedupe_key) rows) ≡ true
      → insert_event empty input id now rows ≡ (none, rows)
  unfolding insert_event
  refused empty input id now rows h = rw h refl

  -- Once an event with a dedupe key was inserted, or refused, every event of the same tenant with that key is
  -- refused, and the table stays as it is.
  pub insert_event_again :
      (empty : P) (input input' : EventInput P) (k : Text) (id now id' now' : ℕ)
      (rows : List (OutboxRow P))
      → input.dedupe_key ≡ some k
      → input'.dedupe_key ≡ some k
      → input'.tenant_id ≡ input.tenant_id
      → insert_event empty input' id' now' (insert_event empty input id now rows).1
        ≡ (none, (insert_event empty input id now rows).1)
  insert_event_again empty input input' k id now id' now' rows h h' same =
      refused empty input' id' now' (insert_event empty input id now rows).1 (
        ap
          (λ t. is_some (
            find_row (has_dedupe_key t input'.dedupe_key) (insert_event empty input id now rows).1))
          same
        ∙ (ap
              (λ key. is_some (
                find_row (has_dedupe_key input.tenant_id key)
                  (insert_event empty input id now rows).1))
              h'
            ∙ taken_key empty input k id now rows h))

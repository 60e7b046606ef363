-- ===== src/Platform/Idempotency/Ledger.antt =====
-- How the rows of the table change under `complete` and `clearProcessing`
-- (platform/idempotency/repository.ts), counted by key.
use modula_backend.Common.{
  All-map, sym, ℕ, ◌+◌, ◌<◌, ◌≡◌, refl, ◌≢◌, none, List, [], ◌∷◌, ◌++◌, Text, All, arith, ◌⊎◌, inl,
  inr,
}
use modula_backend.Json.{Json}
use modula_backend.Platform.Idempotency.Records.{
  IdempotencyRecordRow, has_identity, find_existing, set_response, complete, clear_processing,
  processing,
}
use modula_backend.Platform.Idempotency.Invariant.{AllBelow}
use modula_backend.Platform.Idempotency.Interleaving.{count_key, count_processing, count_completed}

abbrev pub HasNoId : ℕ → List IdempotencyRecordRow → Type 0
HasNoId i = All (λ r. r.id ≢ i)

abbrev pub HasDistinctIds : List IdempotencyRecordRow → Type 0
HasDistinctIds [] = Unit
HasDistinctIds (r ∷ rows) = HasNoId r.id rows × HasDistinctIds rows

-- The row stands in the table, and no other row of the table has its id.
abbrev pub Holds : IdempotencyRecordRow → List IdempotencyRecordRow → Type 0
Holds row [] = ⊥
Holds row (r ∷ rows) = ((row ≡ r) × HasNoId row.id rows) ⊎ ((r.id ≢ row.id) × Holds row rows)

pub complete-HasNoId :
    (i j code : ℕ) (body : Json) (rows : List IdempotencyRecordRow)
    → HasNoId i rows
    → HasNoId i (complete j code body rows)
unfolding complete
complete-HasNoId i j code body [] h = tt
complete-HasNoId i j code body (r ∷ rows) h =
    ground (arith, h.0, complete-HasNoId i j code body rows h.1)

pub clear_processing-HasNoId :
    (i j : ℕ) (rows : List IdempotencyRecordRow)
    → HasNoId i rows
    → HasNoId i (clear_processing j rows)
unfolding clear_processing
clear_processing-HasNoId i j [] h = tt
clear_processing-HasNoId i j (r ∷ rows) h =
    ground (arith, h.0, clear_processing-HasNoId i j rows h.1)

complete_no_id :
    (i code : ℕ) (body : Json) (rows : List IdempotencyRecordRow)
    → HasNoId i rows
    → complete i code body rows ≡ rows
unfolding complete
complete_no_id i code body [] h = refl
complete_no_id i code body (r ∷ rows) h = ground (arith, h.0, complete_no_id i code body rows h.1)

clear_processing_no_id :
    (i : ℕ) (rows : List IdempotencyRecordRow) → HasNoId i rows → clear_processing i rows ≡ rows
unfolding clear_processing
clear_processing_no_id i [] h = refl
clear_processing_no_id i (r ∷ rows) h = ground (arith, h.0, clear_processing_no_id i rows h.1)

has_identity-set :
    (f a k : Text) (code : ℕ) (body : Json) (r : IdempotencyRecordRow)
    → has_identity f a k (set_response code body r) ≡ has_identity f a k r
unfolding has_identity
has_identity-set f a k code body r = refl

-- The ledger of one started row: completing it turns one processing row of its key into a completed
-- one, and deleting it takes one processing row away.
module _ (f a k : Text) (row : IdempotencyRecordRow) (busy : row.status ≡ processing) where
  pub complete_moves :
      (code : ℕ) (body : Json) (rows : List IdempotencyRecordRow)
      → Holds row rows
      → (count_completed f a k (complete row.id code body rows)
          ≡ count_completed f a k rows + count_key f a k (row ∷ []))
        × (count_processing f a k (complete row.id code body rows) + count_key f a k (row ∷ [])
            ≡ count_processing f a k rows)
  unfolding complete
  complete_moves code body [] h = absurd h
  complete_moves code body (r ∷ rows) (inl (same, alone)) =
      ground (arith, complete_no_id row.id code body rows alone, has_identity-set f a k code body r)
  complete_moves code body (r ∷ rows) (inr (other, h)) =
      ground (arith, complete_moves code body rows h)

  pub clear_moves :
      (rows : List IdempotencyRecordRow)
      → Holds row rows
      → (count_completed f a k (clear_processing row.id rows) ≡ count_completed f a k rows)
        × (count_processing f a k (clear_processing row.id rows) + count_key f a k (row ∷ [])
            ≡ count_processing f a k rows)
  unfolding clear_processing
  clear_moves [] h = absurd h
  clear_moves (r ∷ rows) (inl (same, alone)) =
      ground (arith, clear_processing_no_id row.id rows alone)
  clear_moves (r ∷ rows) (inr (other, h)) = ground (arith, clear_moves rows h)

module _ (row other : IdempotencyRecordRow) (ne : row.id ≢ other.id) where
  pub Holds-complete :
      (code : ℕ) (body : Json) (rows : List IdempotencyRecordRow)
      → Holds row rows
      → Holds row (complete other.id code body rows)
  unfolding complete
  Holds-complete code body [] h = absurd h
  Holds-complete code body (r ∷ rows) (inl (same, alone)) =
      inl (ground arith, complete-HasNoId row.id other.id code body rows alone)
  Holds-complete code body (r ∷ rows) (inr (differs, h)) =
      inr (ground arith, Holds-complete code body rows h)

  pub Holds-clear :
      (rows : List IdempotencyRecordRow)
      → Holds row rows
      → Holds row (clear_processing other.id rows)
  unfolding clear_processing
  Holds-clear [] h = absurd h
  Holds-clear (r ∷ rows) (inl (same, alone)) =
      ground (arith, clear_processing-HasNoId row.id other.id rows alone)
  Holds-clear (r ∷ rows) (inr (differs, h)) = ground (arith, Holds-clear rows h)

pub Holds-below :
    (n : ℕ) (row : IdempotencyRecordRow) (rows : List IdempotencyRecordRow)
    → AllBelow n rows
    → Holds row rows
    → row.id < n
Holds-below n row [] below h = absurd h
Holds-below n row (r ∷ rows) below (inl (same, alone)) = ground arith
Holds-below n row (r ∷ rows) below (inr (differs, h)) = Holds-below n row rows below.1 h

pub HasNoId-below : (n : ℕ) (rows : List IdempotencyRecordRow) → AllBelow n rows → HasNoId n rows
HasNoId-below n rows h = All-map (λ r p e. omega arith) rows h

-- A free key counts no row.
pub count_free :
    (f a k : Text) (rows : List IdempotencyRecordRow)
    → find_existing f a k rows ≡ none
    → (count_processing f a k rows ≡ 0) × (count_completed f a k rows ≡ 0)
unfolding find_existing
count_free f a k [] h = (refl, refl)
count_free f a k (r ∷ rows) h = ground (arith, count_free f a k rows)

-- Taking one row out of the middle of a list.
module _ (row : IdempotencyRecordRow) (after : List IdempotencyRecordRow) where
  pub count_key-middle :
      (f a k : Text) (before : List IdempotencyRecordRow)
      → count_key f a k (before ++ (row ∷ after))
        ≡ count_key f a k (row ∷ []) + count_key f a k (before ++ after)
  count_key-middle f a k [] = omega arith
  count_key-middle f a k (r ∷ before) = omega (arith, count_key-middle f a k before)

  pub All-middle :
      (P : IdempotencyRecordRow → Type 0) (before : List IdempotencyRecordRow)
      → All P (before ++ (row ∷ after))
      → P row × All P (before ++ after)
  All-middle P [] h = h
  All-middle P (r ∷ before) h = let (p, rest) = All-middle P before h.1 in (p, (h.0, rest))

  pub HasDistinctIds-middle :
      (before : List IdempotencyRecordRow)
      → HasDistinctIds (before ++ (row ∷ after))
      → HasNoId row.id (before ++ after) × HasDistinctIds (before ++ after)
  HasDistinctIds-middle [] h = h
  HasDistinctIds-middle (r ∷ before) h =
      let (none_before, distinct) = HasDistinctIds-middle before h.1 in
      let (ne, fresh) = All-middle (λ x. x.id ≢ r.id) before h.0 in
      (((λ e. ne (sym e)), none_before), (fresh, distinct))

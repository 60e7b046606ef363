-- ===== src/PlatformSystem/PullSync/Sequences.antt =====
-- The feed of pullSync/infra/repository.ts in the order of its sequence: what an insertion keeps, and what follows a page.
use modula_backend.Common.{
  All, ◌≢◌, and_split, length-append, ℕ, zero, suc, ◌≤◌, ◌<◌, Bool, true, false, ◌&&◌, ◌≡◌, refl,
  ap, List, [], ◌∷◌, ◌++◌, ltb, length, take, drop, select, Bool-cases, inl, inr, arith,
}
use modula_backend.PlatformSystem.PullSync.{ChangeRow, append_change, last_sequence}

-- The sequences rise from above `n`.
abbrev pub Rising : {D : Type 0} → ℕ → List (ChangeRow D) → Type 0
Rising n [] = Unit
Rising n (r ∷ rows) = (n < r.sequence) × Rising r.sequence rows

pub ltb_below : (n m : ℕ) → n < m → ltb n m ≡ true
ltb_below n m h = ground (arith, h)

module _ {D : Type 0} where
  abbrev pub above : ℕ → ChangeRow D → Bool
  above n r = ltb n r.sequence

  lowered : (m n : ℕ) (rows : List (ChangeRow D)) → m ≤ n → Rising n rows → Rising m rows
  lowered m n [] h a = tt
  lowered m n (r ∷ rows) h a = (omega (arith, h, a.0), a.1)

  all_above : (n : ℕ) (rows : List (ChangeRow D)) → Rising n rows → select (above n) rows ≡ rows
  all_above n [] a = refl
  all_above n (r ∷ rows) a =
      rw (ltb_below n r.sequence a.0)
        (ap (λ l. r ∷ l) (all_above n rows (lowered n r.sequence rows (omega (arith, a.0)) a.1)))

  pub last_rises :
      (n k : ℕ) (rows : List (ChangeRow D)) → Rising n rows → n ≤ last_sequence (take k rows) n
  last_rises n zero rows a = omega arith
  last_rises n (suc k) [] a = omega arith
  last_rises n (suc k) (r ∷ rows) a = omega (arith, a.0, last_rises r.sequence k rows a.1)

  -- What is above the last sequence of a page is what follows the page.
  pub rest_of_page :
      (n k : ℕ) (rows : List (ChangeRow D))
      → Rising n rows
      → select (above (last_sequence (take k rows) n)) rows ≡ drop k rows
  rest_of_page n zero rows a = all_above n rows a
  rest_of_page n (suc k) [] a = refl
  rest_of_page n (suc k) (r ∷ rows) a =
      let passed : ltb (last_sequence (take k rows) r.sequence) r.sequence ≡ false =
        ground (arith, last_rises r.sequence k rows a.1) in
      rw passed (rest_of_page r.sequence k rows a.1)

  module _ (p : ChangeRow D → Bool) where
    select-Rising : (n : ℕ) (rows : List (ChangeRow D)) → Rising n rows → Rising n (select p rows)
    select-Rising n [] a = tt
    select-Rising n (r ∷ rows) a = elim (Bool-cases (p r)) [
      | inl kept ↦ rw kept (a.0, select-Rising r.sequence rows a.1)
      | inr dropped ↦
          rw dropped
            (lowered n r.sequence _ (omega (arith, a.0)) (select-Rising r.sequence rows a.1))
    ]

    -- A query after a later sequence is a part of the query after an earlier one.
    pub select_later :
        (c c' : ℕ) (rows : List (ChangeRow D))
        → c ≤ c'
        → select (λ r. p r && above c' r) rows
          ≡ select (above c') (select (λ r. p r && above c r) rows)
    select_later c c' [] h = refl
    select_later c c' (r ∷ rows) h =
        let ih = select_later c c' rows h in
        elim (Bool-cases (p r)) [
          | inr hidden ↦ rw hidden ih
          | inl seen ↦ elim (Bool-cases (above c' r)) [
            | inl later ↦
                let early : above c r ≡ true = ground (arith, h) in
                rw (seen, later, early, later) (ap (λ l. r ∷ l) ih)
            | inr before ↦ elim (Bool-cases (above c r)) [
              | inl early ↦ rw (seen, before, early, before) ih
              | inr out ↦ rw (seen, before, out) ih
            ]
          ]
        ]

  module _ (p : ChangeRow D → Bool) where
    -- What a query after `c` finds rises from above `c`.
    pub query-Rising :
        (n c : ℕ) (rows : List (ChangeRow D))
        → Rising n rows
        → Rising c (select (λ r. p r && above c r) rows)
    query-Rising n c [] a = tt
    query-Rising n c (r ∷ rows) a = elim (Bool-cases (p r && above c r)) [
      | inr dropped ↦ rw dropped (query-Rising r.sequence c rows a.1)
      | inl kept ↦
          let high : c < r.sequence = ground (arith, (and_split (p r) (above c r) kept).1) in
          rw kept (high, select-Rising (λ x. p x && above c x) r.sequence rows a.1)
    ]

module _ {D : Type 0} where
  -- An insertion under a sequence of its own keeps the order of the feed.
  append_change-Rising :
      (n : ℕ) (r : ChangeRow D) (rows : List (ChangeRow D))
      → n < r.sequence
      → All (λ x. x.sequence ≢ r.sequence) rows
      → Rising n rows
      → Rising n (append_change r rows)
  unfolding append_change
  append_change-Rising n r [] low new a = (low, tt)
  append_change-Rising n r (x ∷ rows) low new a = elim (Bool-cases (ltb r.sequence x.sequence)) [
    | inl first ↦
        let below : r.sequence < x.sequence = ground (arith, first) in rw first (low, (below, a.1))
    | inr later ↦
        let differs = new.0 in
        let over : x.sequence < r.sequence = ground (arith, later, differs) in
        rw later (a.0, append_change-Rising x.sequence r rows over new.1 a.1)
  ]

pub take_all : {D : Type 0} (k : ℕ) (xs : List (ChangeRow D)) → length xs ≤ k → take k xs ≡ xs
take_all zero [] h = refl
take_all zero (x ∷ xs) h = absurd (omega (arith, h))
take_all (suc k) [] h = refl
take_all (suc k) (x ∷ xs) h = ap (λ l. x ∷ l) (take_all k xs (omega (arith, h)))

pub take-take :
    {D : Type 0} (k : ℕ) (xs : List (ChangeRow D)) → take k (take (suc k) xs) ≡ take k xs
take-take zero xs = refl
take-take (suc k) [] = refl
take-take (suc k) (x ∷ xs) = ap (λ l. x ∷ l) (take-take k xs)

pub length-take :
    {D : Type 0} (k : ℕ) (xs : List (ChangeRow D)) → k ≤ length xs → length (take k xs) ≡ k
length-take zero xs h = refl
length-take (suc k) [] h = absurd (omega (arith, h))
length-take (suc k) (x ∷ xs) h = ap (λ n. suc n) (length-take k xs (omega (arith, h)))

pub take-drop : {D : Type 0} (k : ℕ) (xs : List (ChangeRow D)) → take k xs ++ drop k xs ≡ xs
take-drop zero xs = refl
take-drop (suc k) [] = refl
take-drop (suc k) (x ∷ xs) = ap (λ l. x ∷ l) (take-drop k xs)

pub length-drop :
    {D : Type 0} (k : ℕ) (xs : List (ChangeRow D))
    → 1 ≤ k
    → k < length xs
    → length (drop k xs) < length xs
length-drop k xs one h = omega (
  arith,
  one,
  h,
  ap length (take-drop k xs),
  length-append {0} (take k xs) (drop k xs),
  length-take k xs (omega (arith, h)),
)

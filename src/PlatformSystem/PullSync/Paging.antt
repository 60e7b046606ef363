-- ===== src/PlatformSystem/PullSync/Paging.antt =====
-- Reading the feed page by page (pullSync/app/service.ts).
use modula_backend.Common.{append_nil}
use modula_backend.Common.{
  ℕ, zero, suc, ◌≤◌, Bool, true, false, ◌&&◌, ◌≡◌, refl, ap, ◌∙◌, Option, none, some, List, [], ◌∷◌,
  ◌++◌, ltb, length, take, drop, select, Bool-cases, inl, inr, arith,
}
use modula_backend.PlatformSystem.PullSync.{
  ChangeRow, Reader, normalize_limit, may_see, append_change, changes_after,
  list_changes_after_sequence, last_sequence, page_of, pull,
}
use modula_backend.PlatformSystem.PullSync.Sequences.{
  Rising, take_all, take-take, length-take, take-drop, length-drop, last_rises, rest_of_page,
  select_later, query-Rising, ltb_below,
}

module _ {D : Type 0} (cursor k : ℕ) (found : List (ChangeRow D)) where
  -- A page is the first `k` of what there is.
  page_lem : page_of cursor k (take (suc k) found) ≡ record {
    changes = take k found;
    has_more = ltb k (length found);
    next_cursor_sequence = last_sequence (take k found) cursor;
  }
  page_lem = elim (Bool-cases (ltb k (length found))) [
    | inl more ↦
        let enough : suc k ≤ length found = ground (arith, more) in
        let full : ltb k (length (take (suc k) found)) ≡ true =
          ltb_below k _ (omega (arith, length-take (suc k) found enough)) in
        rw (full, more, take-take k found) refl
    | inr none_left ↦
        let few : length found ≤ k = ground (arith, none_left) in
        rw (take_all (suc k) found (omega (arith, few)), none_left, take_all k found few) refl
  ]

normalize_limit_above : (limit : Option ℕ) → 1 ≤ normalize_limit limit
unfolding normalize_limit
normalize_limit_above none = omega arith
normalize_limit_above (some zero) = omega arith
normalize_limit_above (some (suc n)) = ground arith

abbrev when : {D : Type 0} → Bool → List (ChangeRow D) → List (ChangeRow D)
when true rows = rows
when false rows = []

length-select :
    {D : Type 0} (p : ChangeRow D → Bool) (rows : List (ChangeRow D))
    → length (select p rows) ≤ length rows
length-select p [] = omega arith
length-select p (r ∷ rows) = elim (Bool-cases (p r)) [
  | inl kept ↦ rw kept (omega (arith, length-select p rows))
  | inr dropped ↦ rw dropped (omega (arith, length-select p rows))
]

module _ {D : Type 0} where
  unseen :
      (p : ChangeRow D → Bool) (r : ChangeRow D) (rows : List (ChangeRow D))
      → p r ≡ false
      → select p (append_change r rows) ≡ select p rows
  unfolding append_change
  unseen p r [] h = rw h refl
  unseen p r (x ∷ rows) h = elim (Bool-cases (ltb r.sequence x.sequence)) [
    | inl first ↦ rw (first, h) refl
    | inr later ↦ elim (Bool-cases (p x)) [
      | inl kept ↦ rw (later, kept) (ap (λ l. x ∷ l) (unseen p r rows h))
      | inr dropped ↦ rw (later, dropped) (unseen p r rows h)
    ]
  ]

module _ {D : Type 0} (reader : Reader) (limit : Option ℕ) where
  -- A client that pulls until there is no more, at most `fuel` times.
  unfoldable pub pull_all : ℕ → ℕ → List (ChangeRow D) → List (ChangeRow D)
  pull_all zero cursor rows = []
  pull_all (suc fuel) cursor rows =
      let page = pull reader limit cursor rows in
      let rest = pull_all fuel page.next_cursor_sequence rows in
      page.changes ++ when page.has_more rest

  pull_lem :
      (cursor : ℕ) (rows : List (ChangeRow D))
      → let found = changes_after reader cursor rows in
        let k = normalize_limit limit in
        pull reader limit cursor rows ≡ record {
          changes = take k found;
          has_more = ltb k (length found);
          next_cursor_sequence = last_sequence (take k found) cursor;
        }
  unfolding pull list_changes_after_sequence
  pull_lem cursor rows = page_lem cursor (normalize_limit limit) (changes_after reader cursor rows)

  pull_found :
      (n fuel cursor : ℕ) (rows : List (ChangeRow D))
      → Rising n rows
      → length (changes_after reader cursor rows) ≤ fuel
      → pull_all fuel cursor rows ≡ changes_after reader cursor rows
  unfolding pull_all
  pull_found n zero cursor rows a h = take_all zero (changes_after reader cursor rows) h
  pull_found n (suc fuel) cursor rows a h =
      let found = changes_after reader cursor rows in
      let k = normalize_limit limit in
      let rises = query-Rising (may_see reader) n cursor rows a in
      let next = last_sequence (take k found) cursor in
      let after_page : changes_after reader next rows ≡ drop k found =
        select_later (may_see reader) cursor next rows (last_rises cursor k found rises)
        ∙ rest_of_page cursor k found rises in
      elim (Bool-cases (ltb k (length found))) [
        | inl more ↦
            let shorter =
              length-drop k found (normalize_limit_above limit) (ground (arith, more)) in
            let ih =
              pull_found n fuel next rows a (omega (arith, h, shorter, ap length after_page)) in
            rw (pull_lem cursor rows, more)
              (ap (λ l. take k found ++ l) (ih ∙ after_page) ∙ take-drop k found)
        | inr all_there ↦
            rw (pull_lem cursor rows, all_there)
              (append_nil (take k found) ∙ take_all k found (ground (arith, all_there)))
      ]

  -- Where the rows stand under rising positive sequences, a client that pulls page by page from a cursor,
  -- whatever the limit is, until there is no more receives every change after the cursor that it may see
  -- exactly once, in the order of the sequences; as many pulls as there are rows are enough.
  pub pull_all-changes_after :
      (cursor : ℕ) (rows : List (ChangeRow D))
      → Rising 0 rows
      → pull_all (length rows) cursor rows ≡ changes_after reader cursor rows
  pull_all-changes_after cursor rows a =
      pull_found 0 (length rows) cursor rows a
        (length-select (λ r. may_see reader r && ltb cursor r.sequence) rows)

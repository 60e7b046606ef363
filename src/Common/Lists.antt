-- ===== src/Common/Lists.antt =====
-- Lists measured by native numbers, tables as lists of rows with the queries the repositories run
-- on them, and predicates on lists by recursion.
use Prim.Native.Nat.{ℕ, zero, suc, ◌+◌}
use mathlib.Core.Path.{◌≡◌, refl, ◌∙◌, sym, ap}
use mathlib.Core.Logic.{◌≢◌, inl, inr}
use mathlib.Core.Bool.{Bool, true, false, ◌&&◌}
use mathlib.Core.List.{List, [], ◌∷◌, ◌++◌}
use mathlib.Core.Option.{Option, none, some}
use native.Mathlib.Omega.{arith}
use modula_backend.Common.Tests.{if◌then◌else◌, Bool-cases}

module _ {ℓ} {A : Type ℓ} where
  abbrev pub length : List A → ℕ
  length [] = 0
  length (x ∷ xs) = suc (length xs)

  abbrev pub take : ℕ → List A → List A
  take zero xs = []
  take (suc n) [] = []
  take (suc n) (x ∷ xs) = x ∷ take n xs

  abbrev pub drop : ℕ → List A → List A
  drop zero xs = xs
  drop (suc n) [] = []
  drop (suc n) (x ∷ xs) = drop n xs

  -- `SELECT ... WHERE p LIMIT 1`, and `Array.prototype.find`.
  abbrev pub find_row : (A → Bool) → List A → Option A
  find_row p [] = none
  find_row p (x ∷ xs) = if p x then some x else find_row p xs

  -- `SELECT ... WHERE p`.
  abbrev pub select : (A → Bool) → List A → List A
  select p [] = []
  select p (x ∷ xs) = if p x then x ∷ select p xs else select p xs

  -- `UPDATE ... SET f WHERE p`.
  abbrev pub update_rows : (A → Bool) → (A → A) → List A → List A
  update_rows p f [] = []
  update_rows p f (x ∷ xs) = (if p x then f x else x) ∷ update_rows p f xs

  -- `DELETE ... WHERE p`.
  abbrev pub delete_rows : (A → Bool) → List A → List A
  delete_rows p [] = []
  delete_rows p (x ∷ xs) = if p x then delete_rows p xs else x ∷ delete_rows p xs

  pub length-append : (xs ys : List A) → length (xs ++ ys) ≡ length xs + length ys
  length-append [] ys = omega arith
  length-append (x ∷ xs) ys = omega (arith, length-append xs ys)

abbrev pub All {ℓ κ} : {A : Type ℓ} → (A → Type κ) → List A → Type κ
All P [] = Unit
All P (x ∷ xs) = P x × All P xs

pub All-append {ℓ κ} :
    {A : Type ℓ} (P : A → Type κ) (xs ys : List A) → All P xs → All P ys → All P (xs ++ ys)
All-append P [] ys hx hy = hy
All-append P (x ∷ xs) ys hx hy = (hx.0, All-append P xs ys hx.1 hy)

pub All-map {ℓ κ} :
    {A : Type ℓ} {P Q : A → Type κ} (f : (x : A) → P x → Q x) (xs : List A) → All P xs → All Q xs
All-map f [] h = tt
All-map f (x ∷ xs) h = (f x h.0, All-map f xs h.1)

module _ {ℓ κ} {A : Type ℓ} (P : A → Type κ) (p : A → Bool) where
  All-if : (c : Bool) (x : A) (ys : List A) → P x → All P ys → All P (if c then x ∷ ys else ys)
  All-if true x ys h k = (h, k)
  All-if false x ys h k = k

  pub All-select : (xs : List A) → All P xs → All P (select p xs)
  All-select [] h = tt
  All-select (x ∷ xs) h = All-if (p x) x (select p xs) h.0 (All-select xs h.1)

some_inj {ℓ} : {A : Type ℓ} {x y : A} → some x ≡ some y → x ≡ y
some_inj h = cc

some_ne_none {ℓ} : {A : Type ℓ} {x : A} → some x ≢ none
some_ne_none h = cc

module _ {ℓ} {A : Type ℓ} (p : A → Bool) where
  pub find_row_here : (x : A) (xs : List A) → p x ≡ true → find_row p (x ∷ xs) ≡ some x
  find_row_here x xs h = rw h

  pub find_row_skip : (x : A) (xs : List A) → p x ≡ false → find_row p (x ∷ xs) ≡ find_row p xs
  find_row_skip x xs h = rw h

  pub find_row_holds : (xs : List A) (x : A) → find_row p xs ≡ some x → p x ≡ true
  find_row_holds [] x h = cc
  find_row_holds (y ∷ ys) x h = elim (Bool-cases (p y)) [
    | inl holds ↦ let e : some y ≡ some x = sym (find_row_here y ys holds) ∙ h in cc
    | inr fails ↦ find_row_holds ys x (sym (find_row_skip y ys fails) ∙ h)
  ]

  -- The update of the row that a query finds.
  pub find_row-update_rows :
      (q : A → Bool) (f : A → A) (xs : List A) (x : A)
      → ((y : A) → p (f y) ≡ p y)
      → find_row p xs ≡ some x
      → q x ≡ true
      → find_row p (update_rows (λ y. p y && q y) f xs) ≡ some (f x)
  find_row-update_rows q f [] x keeps h open_ = cc
  find_row-update_rows q f (y ∷ ys) x keeps h open_ = elim (Bool-cases (p y)) [
    | inl holds ↦
        let e : some y ≡ some x = sym (find_row_here y ys holds) ∙ h in
        let same : y ≡ x = some_inj e in
        let picked : q y ≡ true = ap q same ∙ open_ in
        rw (holds, picked, keeps y, holds) (ap (λ z. some (f z)) same)
    | inr fails ↦
        rw (fails, fails)
          (find_row-update_rows q f ys x keeps (sym (find_row_skip y ys fails) ∙ h) open_)
  ]

  pub update_rows-none : (f : A → A) (xs : List A) → find_row p xs ≡ none → update_rows p f xs ≡ xs
  update_rows-none f [] h = refl
  update_rows-none f (x ∷ xs) h = elim (Bool-cases (p x)) [
    | inl holds ↦ absurd (some_ne_none (sym (find_row_here x xs holds) ∙ h))
    | inr fails ↦
        rw fails
          (ap (λ rows. x ∷ rows) (update_rows-none f xs (sym (find_row_skip x xs fails) ∙ h)))
  ]

module _ {ℓ κ} {A : Type ℓ} (P : A → Type κ) (p : A → Bool) where
  All-unless : (c : Bool) (x : A) (ys : List A) → P x → All P ys → All P (if c then ys else x ∷ ys)
  All-unless true x ys h k = k
  All-unless false x ys h k = (h, k)

  pub All-delete : (xs : List A) → All P xs → All P (delete_rows p xs)
  All-delete [] h = tt
  All-delete (x ∷ xs) h = All-unless (p x) x (delete_rows p xs) h.0 (All-delete xs h.1)

module _ {ℓ} {A : Type ℓ} (p q : A → Bool) where
  -- A query finds the same row among those that pass a weaker test.
  pub find_row-select :
      (xs : List A) → ((x : A) → p x ≡ true → q x ≡ true) → find_row p (select q xs) ≡ find_row p xs
  find_row-select [] h = refl
  find_row-select (x ∷ xs) h = elim (Bool-cases (p x)) [
    | inl holds ↦ rw (h x holds, holds) refl
    | inr fails ↦ elim (Bool-cases (q x)) [
      | inl kept ↦ rw (kept, fails) (find_row-select xs h)
      | inr dropped ↦ rw (dropped, fails) (find_row-select xs h)
    ]
  ]

  pub find_row_cong : (xs : List A) → ((x : A) → p x ≡ q x) → find_row p xs ≡ find_row q xs
  find_row_cong [] h = refl
  find_row_cong (x ∷ xs) h = rw (h x, find_row_cong xs h) refl

module _ {ℓ} {A : Type ℓ} (p q : A → Bool) (f : A → A) where
  -- What a query finds after an update that keeps what it asks for.
  pub find_row_updated :
      (xs : List A) (x : A)
      → ((y : A) → p (f y) ≡ p y)
      → find_row p xs ≡ some x
      → find_row p (update_rows q f xs) ≡ some (if q x then f x else x)
  find_row_updated [] x keeps h = cc
  find_row_updated (y ∷ ys) x keeps h = elim (Bool-cases (p y)) [
    | inl holds ↦
        let e : some y ≡ some x = sym (find_row_here p y ys holds) ∙ h in
        let same : y ≡ x = some_inj e in
        elim (Bool-cases (q y)) [
          | inl picked ↦
              let picked' : q x ≡ true = ap q (sym same) ∙ picked in
              rw (picked, keeps y, holds, picked') (ap (λ z. some (f z)) same)
          | inr passed ↦
              let passed' : q x ≡ false = ap q (sym same) ∙ passed in
              rw (passed, holds, passed') (ap (λ z. some z) same)
        ]
    | inr fails ↦
        let rest = find_row_updated ys x keeps (sym (find_row_skip p y ys fails) ∙ h) in
        elim (Bool-cases (q y)) [
          | inl picked ↦ rw (picked, keeps y, fails) rest
          | inr passed ↦ rw (passed, fails) rest
        ]
  ]

pub append_nil : {A : Type 0} (xs : List A) → xs ++ [] ≡ xs
append_nil [] = refl
append_nil (x ∷ xs) = ap (λ l. x ∷ l) (append_nil xs)

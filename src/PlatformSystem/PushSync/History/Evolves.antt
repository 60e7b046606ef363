-- ===== src/PlatformSystem/PushSync/History/Evolves.antt =====
-- What the statements of pushSync/infra/repository.ts may do to the rows of v0_offline_sync_operations.
use modula_backend.Common.{
  and_split, ℕ, suc, Bool, true, false, ◌≡◌, sym, ap, subst, ◌∙◌, Option, none, some, List, ◌∷◌,
  Text, ◌==◌, eq_iff, if◌then◌else◌, Bool-cases, inl, inr, arith, find_row, find_row_skip,
  find_row_updated, update_rows,
}
use modula_backend.PlatformSystem.PushSync.Rows.{OperationRow}
use modula_backend.PlatformSystem.PushSync.Repository.{has_identity, is_in_progress}
use modula_backend.PlatformSystem.PushSync.History.{Descending, raise, update_rows-Descending}

-- An update that picks rows in progress only, and keeps their ids and identities.
pub record Gentle {P : Type 0} (q : OperationRow P → Bool) (f : OperationRow P → OperationRow P)
    : Type 0 where
  pub picks : (r : OperationRow P) → is_in_progress r.status ≡ false → q r ≡ false
  pub keeps_id : (r : OperationRow P) → (f r).id ≡ r.id
  pub keeps_identity :
      (tenant branch op : Text) (r : OperationRow P)
      → has_identity tenant branch op (f r) ≡ has_identity tenant branch op r

-- The next id and the rows after some statements.
pub data Evolves {P : Type 0} (n : ℕ) (rows : List (OperationRow P))
    : ℕ → List (OperationRow P) → Type 0 where
  unchanged : Evolves n rows n rows
  counted :
      {n' : ℕ} {rows' : List (OperationRow P)}
      → Evolves n rows n' rows'
      → Evolves n rows (suc n') rows'
  updated :
      {n' : ℕ} {rows' : List (OperationRow P)} (q : OperationRow P → Bool)
      (f : OperationRow P → OperationRow P)
      → Gentle q f
      → Evolves n rows n' rows'
      → Evolves n rows n' (update_rows q f rows')
  inserted :
      {n' : ℕ} {rows' : List (OperationRow P)} (r : OperationRow P)
      → r.id ≡ n'
      → find_row (has_identity r.tenant_id r.branch_id r.client_op_id) rows' ≡ none
      → Evolves n rows n' rows'
      → Evolves n rows (suc n') (r ∷ rows')

module _ {P : Type 0} where
  pub Evolves-Descending :
      {n : ℕ} {rows : List (OperationRow P)} {n' : ℕ} {rows' : List (OperationRow P)}
      → Evolves n rows n' rows'
      → Descending n rows
      → Descending n' rows'
  Evolves-Descending unchanged d = d
  Evolves-Descending (counted {n'} {rows'} e) d =
      raise n' (suc n') rows' (omega arith) (Evolves-Descending e d)
  Evolves-Descending (updated {n'} {rows'} q f g e) d =
      update_rows-Descending q f g.keeps_id n' rows' (Evolves-Descending e d)
  Evolves-Descending (inserted {n'} {rows'} r same fresh e) d =
      (omega (arith, same), subst (λ m. Descending m rows') (sym same) (Evolves-Descending e d))

  -- Rows with one identity ask the same query.
  same_identity :
      (tenant branch op : Text) (r : OperationRow P)
      → has_identity tenant branch op r ≡ true
      → (r.tenant_id ≡ tenant) × (r.branch_id ≡ branch) × (r.client_op_id ≡ op)
  unfolding has_identity
  same_identity tenant branch op r h =
      let (place, same) = and_split _ (r.client_op_id == op) h in
      let (t, b) = and_split (r.tenant_id == tenant) (r.branch_id == branch) place in
      (
        (eq_iff r.tenant_id tenant).0 t,
        (eq_iff r.branch_id branch).0 b,
        (eq_iff r.client_op_id op).0 same,
      )

  not_found :
      (tenant branch op : Text) (x r : OperationRow P) (rows : List (OperationRow P))
      → find_row (has_identity x.tenant_id x.branch_id x.client_op_id) rows ≡ none
      → find_row (has_identity tenant branch op) rows ≡ some r
      → has_identity tenant branch op x ≡ false
  not_found tenant branch op x r rows fresh found =
      elim (Bool-cases (has_identity tenant branch op x)) [
        | inr other ↦ other
        | inl same ↦
            let (t, b, o) = same_identity tenant branch op x same in
            let e : ◌≡◌ {A = Option (OperationRow P)} (some r) none =
              sym found
              ∙ (ap (λ v. find_row (has_identity v branch op) rows) (sym t)
                  ∙ (ap (λ v. find_row (has_identity x.tenant_id v op) rows) (sym b)
                      ∙ (ap (λ v. find_row (has_identity x.tenant_id x.branch_id v) rows) (sym o)
                          ∙ fresh))) in
            cc
      ]

  -- The row that an identity finds, once it is settled, is found unchanged ever after.
  pub Evolves-settled :
      (tenant branch op : Text) (r : OperationRow P)
      → is_in_progress r.status ≡ false
      → {n : ℕ} {rows : List (OperationRow P)} {n' : ℕ} {rows' : List (OperationRow P)}
      → Evolves n rows n' rows'
      → find_row (has_identity tenant branch op) rows ≡ some r
      → find_row (has_identity tenant branch op) rows' ≡ some r
  Evolves-settled tenant branch op r settled unchanged h = h
  Evolves-settled tenant branch op r settled (counted e) h =
      Evolves-settled tenant branch op r settled e h
  Evolves-settled tenant branch op r settled (updated {n'} {rows'} q f g e) h =
      find_row_updated (has_identity tenant branch op) q f rows' r
        (g.keeps_identity tenant branch op) (Evolves-settled tenant branch op r settled e h)
      ∙ ap (λ (b : Bool). some (if b then f r else r)) (g.picks r settled)
  Evolves-settled tenant branch op r settled (inserted {n'} {rows'} x same fresh e) h =
      let before = Evolves-settled tenant branch op r settled e h in
      find_row_skip (has_identity tenant branch op) x rows'
        (not_found tenant branch op x r rows' fresh before)
      ∙ before

  pub Evolves-trans :
      {n : ℕ} {rows : List (OperationRow P)} {m : ℕ} {mid : List (OperationRow P)} {n' : ℕ}
      {rows' : List (OperationRow P)}
      → Evolves n rows m mid
      → Evolves m mid n' rows'
      → Evolves n rows n' rows'
  Evolves-trans e unchanged = e
  Evolves-trans e (counted k) = counted (Evolves-trans e k)
  Evolves-trans e (updated q f g k) = updated q f g (Evolves-trans e k)
  Evolves-trans e (inserted r same fresh k) = inserted r same fresh (Evolves-trans e k)

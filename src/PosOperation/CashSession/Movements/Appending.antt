-- ===== src/PosOperation/CashSession/Movements/Appending.antt =====
-- What `appendMovement` of cashSession/infra/repository.ts leaves behind.
use modula_backend.Common.{
  ◌≡◌, refl, ◌∷◌, ok, err, eq_refl, arith, true, ap, Result-cases, inl, inr,
}
use modula_backend.Common.Chain.{Atomic}
use modula_backend.PosOperation.CashSession.Rows.{CashMovementRow, CashDb, Tick}
use modula_backend.PosOperation.CashSession.Failures.{Failure, unique_violation}
use modula_backend.PosOperation.CashSession.Repository.{
  NewMovement, new_movement_row, fits_movement,
}
use modula_backend.PosOperation.CashSession.Movements.{
  append_movement, passes_checks, is_duplicate, has_movement_key, has_sale_anchor,
}

abbrev pub with_movement : NewMovement → Tick → CashDb → CashDb
with_movement input tick db = record db { movements = new_movement_row input tick ∷ db.movements }

module _ (input : NewMovement) (tick : Tick) where
  pub append_movement-Atomic : Atomic (append_movement input tick)
  unfolding append_movement
  append_movement-Atomic = record { keeps = λ db e h. ground arith }

  module _ (db : CashDb) {row : CashMovementRow}
      (h : (append_movement input tick db).0 ≡ ok row) where
    pub append_movement_ok :
        append_movement input tick db
        ≡ (ok (new_movement_row input tick), with_movement input tick db)
    unfolding append_movement
    append_movement_ok = ground arith

    pub append_movement_checked : (fits_movement input ≡ true) × (passes_checks input ≡ true)
    unfolding append_movement
    append_movement_checked = ground arith

  same_key :
      (tick' : Tick)
      → has_movement_key (new_movement_row input tick') (new_movement_row input tick) ≡ true
  unfolding has_movement_key
  same_key tick' = ground (
    arith,
    eq_refl input.tenant_id,
    eq_refl input.branch_id,
    eq_refl input.cash_session_id,
    eq_refl input.idempotency_key,
  )

  duplicate_after :
      (tick' : Tick) (db : CashDb)
      → is_duplicate (new_movement_row input tick') (with_movement input tick db).movements ≡ true
  unfolding is_duplicate
  duplicate_after tick' db = ground (arith, same_key tick')

  pub append_movement_again :
      (tick' : Tick) (db : CashDb)
      → (fits_movement input ≡ true) × (passes_checks input ≡ true)
      → append_movement input tick' (with_movement input tick db)
        ≡ (err unique_violation, with_movement input tick db)
  unfolding append_movement
  append_movement_again tick' db h = ground (arith, duplicate_after tick' db)

  same_duplicate :
      (tick' : Tick) (db : CashDb)
      → is_duplicate (new_movement_row input tick') db.movements
        ≡ is_duplicate (new_movement_row input tick) db.movements
  unfolding is_duplicate has_movement_key has_sale_anchor
  same_duplicate tick' db = refl

  append_movement_refused_again :
      (tick' : Tick) (db : CashDb) (e : Failure)
      → (append_movement input tick db).0 ≡ err e
      → (append_movement input tick' db).1 ≡ db
  unfolding append_movement
  append_movement_refused_again tick' db e h = ground (arith, same_duplicate tick' db)

  -- A movement that is appended twice changes the table once.
  pub append_movement_twice :
      (tick' : Tick) (db : CashDb)
      → (append_movement input tick' (append_movement input tick db).1).1
        ≡ (append_movement input tick db).1
  append_movement_twice tick' db = elim (Result-cases (append_movement input tick db).0) [
    | inl (row, h) ↦
        let e = append_movement_ok db h in
        rw e (ap (λ o. o.1) (append_movement_again tick' db (append_movement_checked db h)))
    | inr (failure, h) ↦
        rw (append_movement-Atomic.keeps db failure h)
          (append_movement_refused_again tick' db failure h)
  ]

  pub append_movement_keeps :
      (db : CashDb)
      → ((append_movement input tick db).1.sessions ≡ db.sessions)
        × ((append_movement input tick db).1.sales ≡ db.sales)
  unfolding append_movement
  append_movement_keeps db = ground arith

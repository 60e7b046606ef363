-- ===== src/PosOperation/CashSession/Movements.antt =====
-- The table of cash movements: `appendMovement` of cashSession/infra/repository.ts with the column types, the CHECKs
-- and the unique indexes of v0_cash_movements (migrations/025_create_v0_cash_session_tables.sql).
pub mod Appending
use modula_backend.Common.{
  Bool, true, false, not, ◌&&◌, ◌||◌, Option, none, some, List, ◌∷◌, Text, ◌==◌, is_some,
  if◌then◌else◌, find_row, select, ℤ, pos, ltb_ℤ, is_zero, Result, ok, err, Action, ℕ, length,
}
use modula_backend.PosOperation.CashSession.Rows.{
  CashMovementType, sale_in, refund_cash, manual_in, manual_out, adjustment,
  CashMovementSourceRefType, sale, manual, system, CashMovementRow, CashDb, Tick,
}
use modula_backend.PosOperation.CashSession.Failures.{
  Failure, unique_violation, check_violation, value_out_of_range,
}
use modula_backend.PosOperation.CashSession.Repository.{
  NewMovement, new_movement_row, fits_movement,
}

abbrev pub is_in : ℤ → ℤ → Bool
is_in u k = not (ltb_ℤ u (pos 0)) && not (ltb_ℤ k (pos 0))

abbrev pub is_out : ℤ → ℤ → Bool
is_out u k = not (ltb_ℤ (pos 0) u) && not (ltb_ℤ (pos 0) k)

-- The signs that each type of movement allows.
unfoldable pub has_allowed_signs : CashMovementType → ℤ → ℤ → Bool
has_allowed_signs sale_in u k = is_in u k
has_allowed_signs manual_in u k = is_in u k
has_allowed_signs refund_cash u k = is_out u k
has_allowed_signs manual_out u k = is_out u k
has_allowed_signs adjustment u k = true

abbrev pub is_sale_type : CashMovementType → Bool
is_sale_type sale_in = true
is_sale_type refund_cash = true
is_sale_type _ = false

unfoldable pub has_allowed_source :
    CashMovementSourceRefType → Option Text → CashMovementType → Bool
has_allowed_source sale ref t = is_some ref && is_sale_type t
has_allowed_source manual ref t = not (is_some ref) && not (is_sale_type t)
has_allowed_source system ref t = is_some ref

unfoldable pub is_in_session : Text → Text → CashMovementRow → Bool
is_in_session tenant session m = m.tenant_id == tenant && m.cash_session_id == session

-- UNIQUE (tenant_id, branch_id, cash_session_id, idempotency_key).
unfoldable pub has_movement_key : CashMovementRow → CashMovementRow → Bool
has_movement_key n m =
    (m.tenant_id == n.tenant_id && m.branch_id == n.branch_id)
    && (m.cash_session_id == n.cash_session_id && m.idempotency_key == n.idempotency_key)

abbrev pub same_type : CashMovementType → CashMovementType → Bool
same_type sale_in sale_in = true
same_type refund_cash refund_cash = true
same_type _ _ = false

abbrev pub is_sale_source : CashMovementSourceRefType → Bool
is_sale_source sale = true
is_sale_source _ = false

abbrev pub same_ref : Option Text → Option Text → Bool
same_ref (some a) (some b) = a == b
same_ref _ _ = false

-- uq_v0_cash_movements_sale_anchor: one movement of a type for each sale.
unfoldable pub has_sale_anchor : CashMovementRow → CashMovementRow → Bool
has_sale_anchor n m =
    ((is_sale_source n.source_ref_type && is_sale_source m.source_ref_type)
      && (m.tenant_id == n.tenant_id && m.branch_id == n.branch_id))
    && (same_ref m.source_ref_id n.source_ref_id && same_type m.movement_type n.movement_type)

unfoldable pub is_duplicate : CashMovementRow → List CashMovementRow → Bool
is_duplicate n rows =
    is_some (find_row (has_movement_key n) rows) || is_some (find_row (has_sale_anchor n) rows)

unfoldable pub passes_checks : NewMovement → Bool
passes_checks input =
    (not (is_zero input.amount_usd_delta && is_zero input.amount_khr_delta)
      && has_allowed_signs input.movement_type input.amount_usd_delta input.amount_khr_delta)
    && has_allowed_source input.source_ref_type input.source_ref_id input.movement_type

unfoldable pub append_movement : NewMovement → Tick → Action CashDb Failure CashMovementRow
append_movement input tick db =
    if not (fits_movement input)
    then (err value_out_of_range, db)
    else if not (passes_checks input)
    then (err check_violation, db)
    else if is_duplicate (new_movement_row input tick) db.movements
    then (err unique_violation, db)
    else (
      ok (new_movement_row input tick),
      record db { movements = new_movement_row input tick ∷ db.movements },
    )

unfoldable pub movements_of : Text → Text → CashDb → List CashMovementRow
movements_of tenant session db = select (is_in_session tenant session) db.movements

unfoldable pub count_movements_by_session : Text → Text → CashDb → ℕ
unfolding movements_of
count_movements_by_session tenant session db = length (movements_of tenant session db)

-- ===== src/PosOperation/CashSession/Totals/Balance.antt =====
-- The totals of a session's movements agree with each other (`summarizeMovementTotals` of
-- cashSession/infra/repository.ts).
use modula_backend.Common.{
  ◌≡◌, Text, List, [], ◌∷◌, true, false, ℤ, pos, ◌+ℤ◌, ◌-ℤ◌, abs, pos_part, neg_part, ◌+◌, ◌∙◌,
  arith, All, All-map, All-select, int_laws, ltb_ℤ,
}
use modula_backend.PosOperation.CashSession.Rows.{
  CashMovementType, sale_in, refund_cash, manual_in, manual_out, adjustment, CashMovementRow,
  CashMovementTotalsRow, CashDb,
}
use modula_backend.PosOperation.CashSession.Movements.{
  has_allowed_signs, movements_of, is_in_session,
}
use modula_backend.PosOperation.CashSession.Totals.{
  sum_rows, sale_in_of, refund_of, manual_in_of, manual_out_of, adjustment_of, total_of,
  summarize_movement_totals,
}

-- The CHECK on the signs of a movement holds of a row.
abbrev pub HasAllowedSigns : CashMovementRow → Type 0
HasAllowedSigns m = has_allowed_signs m.movement_type m.amount_usd_delta m.amount_khr_delta ≡ true

-- In, less refunds, in, less out, and adjusted.
abbrev pub balance : ℤ → ℤ → ℤ → ℤ → ℤ → ℤ
balance sold refunded paid_in paid_out adjusted =
    sold -ℤ refunded +ℤ paid_in -ℤ paid_out +ℤ adjusted

-- The sign that a type allows to one amount.
abbrev pub AllowsSign : CashMovementType → ℤ → Type 0
AllowsSign sale_in x = ltb_ℤ x (pos 0) ≡ false
AllowsSign manual_in x = ltb_ℤ x (pos 0) ≡ false
AllowsSign refund_cash x = ltb_ℤ (pos 0) x ≡ false
AllowsSign manual_out x = ltb_ℤ (pos 0) x ≡ false
AllowsSign adjustment x = Unit {0}

abs_parts :
    (a : ℤ)
    → ltb_ℤ (pos 0) a ≡ false
    → pos_part (abs a) + pos_part a ≡ neg_part (abs a) + neg_part a
unfolding abs ◌-ℤ◌
abs_parts a h = ground arith

row_balance :
    (t : CashMovementType) (x : ℤ)
    → AllowsSign t x
    → x
      ≡ balance
          (sale_in_of t x)
          (refund_of t x)
          (manual_in_of t x)
          (manual_out_of t x)
          (adjustment_of t x)
row_balance sale_in x h = omega int_laws
row_balance refund_cash x h = omega (int_laws, abs_parts x h)
row_balance manual_in x h = omega int_laws
row_balance manual_out x h = omega (int_laws, abs_parts x h)
row_balance adjustment x h = omega int_laws

+ℤ_cong : {a a' b b' : ℤ} → a ≡ a' → b ≡ b' → a +ℤ b ≡ a' +ℤ b'
+ℤ_cong h k = cc

balance_add :
    (s r i o a s' r' i' o' a' : ℤ)
    → balance s r i o a +ℤ balance s' r' i' o' a'
      ≡ balance (s +ℤ s') (r +ℤ r') (i +ℤ i') (o +ℤ o') (a +ℤ a')
balance_add s r i o a s' r' i' o' a' = omega int_laws

module _ (t : CashMovementRow → CashMovementType) (x : CashMovementRow → ℤ) where
  abbrev by : (CashMovementType → ℤ → ℤ) → CashMovementRow → ℤ
  by f m = f (t m) (x m)

  sums_balance :
      (rows : List CashMovementRow)
      → All (λ m. AllowsSign (t m) (x m)) rows
      → sum_rows x rows
        ≡ balance
            (sum_rows (by sale_in_of) rows)
            (sum_rows (by refund_of) rows)
            (sum_rows (by manual_in_of) rows)
            (sum_rows (by manual_out_of) rows)
            (sum_rows (by adjustment_of) rows)
  sums_balance [] h = omega int_laws
  sums_balance (m ∷ rows) h =
      +ℤ_cong (row_balance (t m) (x m) h.0) (sums_balance rows h.1)
      ∙ balance_add _ _ _ _ _ _ _ _ _ _

allows_usd : (t : CashMovementType) (u k : ℤ) → has_allowed_signs t u k ≡ true → AllowsSign t u
unfolding has_allowed_signs
allows_usd sale_in u k h = ground arith
allows_usd refund_cash u k h = ground arith
allows_usd manual_in u k h = ground arith
allows_usd manual_out u k h = ground arith
allows_usd adjustment u k h = tt

allows_khr : (t : CashMovementType) (u k : ℤ) → has_allowed_signs t u k ≡ true → AllowsSign t k
unfolding has_allowed_signs
allows_khr sale_in u k h = ground arith
allows_khr refund_cash u k h = ground arith
allows_khr manual_in u k h = ground arith
allows_khr manual_out u k h = ground arith
allows_khr adjustment u k h = tt

module _ (tenant session : Text) (db : CashDb) (signs : All HasAllowedSigns db.movements) where
  abbrev totals : CashMovementTotalsRow
  totals = summarize_movement_totals tenant session db

  signs_in_session : All HasAllowedSigns (movements_of tenant session db)
  unfolding movements_of
  signs_in_session = All-select HasAllowedSigns (is_in_session tenant session) db.movements signs

  -- Where every movement satisfies the CHECK on its signs, the totals of a session by type net out to
  -- its cash delta, in both currencies: sales less refunds, plus paid-in less paid-out, plus
  -- adjustments.
  pub summarize_movement_totals_balance :
      (totals.total_cash_delta_usd
        ≡ balance totals.total_sale_in_usd totals.total_refund_out_usd totals.total_manual_in_usd
            totals.total_manual_out_usd totals.total_adjustment_usd)
      × (totals.total_cash_delta_khr
          ≡ balance totals.total_sale_in_khr totals.total_refund_out_khr totals.total_manual_in_khr
              totals.total_manual_out_khr totals.total_adjustment_khr)
  unfolding summarize_movement_totals total_of
  summarize_movement_totals_balance = (
    sums_balance (λ m. m.movement_type) (λ m. m.amount_usd_delta) (movements_of tenant session db)
        (All-map (λ m. allows_usd m.movement_type m.amount_usd_delta m.amount_khr_delta) _
          signs_in_session),
    sums_balance (λ m. m.movement_type) (λ m. m.amount_khr_delta) (movements_of tenant session db)
        (All-map (λ m. allows_khr m.movement_type m.amount_usd_delta m.amount_khr_delta) _
          signs_in_session),
  )

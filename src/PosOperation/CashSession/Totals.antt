-- ===== src/PosOperation/CashSession/Totals.antt =====
-- `summarizeMovementTotals` of cashSession/infra/repository.ts: the sums of a session's movements by
-- type, and of the sales that were finalized while it was open.
pub mod Balance
use modula_backend.Common.{
  ℕ, Bool, true, false, not, ◌&&◌, Option, none, some, List, [], ◌∷◌, Text, ◌==◌, leb,
  if◌then◌else◌, find_row, select, ℤ, pos, ◌+ℤ◌, abs,
}
use modula_backend.PosOperation.CashSession.Rows.{
  CashMovementType, sale_in, refund_cash, manual_in, manual_out, adjustment, CashSessionRow,
  CashMovementRow, CashMovementTotalsRow, SalePaymentMethod, cash, khqr, TenderCurrency, usd, khr,
  SaleStatus, finalized, SaleRow, CashDb,
}
use modula_backend.PosOperation.CashSession.Repository.{get_session_by_id, not_closed_before}
use modula_backend.PosOperation.CashSession.Movements.{movements_of}

-- `SUM(f)`, 0 where there is no row.
abbrev pub sum_rows : {A : Type 0} → (A → ℤ) → List A → ℤ
sum_rows f [] = pos 0
sum_rows f (x ∷ xs) = f x +ℤ sum_rows f xs

-- The `CASE` of each sum.
abbrev pub sale_in_of : CashMovementType → ℤ → ℤ
sale_in_of sale_in x = x
sale_in_of _ x = pos 0

abbrev pub refund_of : CashMovementType → ℤ → ℤ
refund_of refund_cash x = abs x
refund_of _ x = pos 0

abbrev pub manual_in_of : CashMovementType → ℤ → ℤ
manual_in_of manual_in x = x
manual_in_of _ x = pos 0

abbrev pub manual_out_of : CashMovementType → ℤ → ℤ
manual_out_of manual_out x = abs x
manual_out_of _ x = pos 0

abbrev pub adjustment_of : CashMovementType → ℤ → ℤ
adjustment_of adjustment x = x
adjustment_of _ x = pos 0

abbrev pub non_cash_of : SalePaymentMethod → TenderCurrency → TenderCurrency → ℤ → ℤ
non_cash_of khqr usd usd x = x
non_cash_of khqr khr khr x = x
non_cash_of _ _ _ x = pos 0

abbrev pub khqr_of : SalePaymentMethod → TenderCurrency → TenderCurrency → ℤ → ℤ
khqr_of khqr usd usd x = x
khqr_of khqr khr khr x = x
khqr_of _ _ _ x = pos 0

abbrev pub is_finalized : SaleStatus → Bool
is_finalized finalized = true
is_finalized _ = false

-- `finalized_at >= opened_at AND (closed_at IS NULL OR finalized_at <= closed_at)`.
abbrev pub in_window : CashSessionRow → Option ℕ → Bool
in_window s none = false
in_window s (some at) = leb s.opened_at at && not_closed_before at s.closed_at

unfoldable pub is_sale_in_session : CashSessionRow → SaleRow → Bool
is_sale_in_session s x =
    (x.tenant_id == s.tenant_id && x.branch_id == s.branch_id)
    && (is_finalized x.status && in_window s x.finalized_at)

-- The sales of the session's window; without the session the window is empty.
unfoldable pub window_sales : Option CashSessionRow → CashDb → List SaleRow
window_sales none db = []
window_sales (some s) db = select (is_sale_in_session s) db.sales

abbrev pub usd_by : (CashMovementType → ℤ → ℤ) → CashMovementRow → ℤ
usd_by f m = f m.movement_type m.amount_usd_delta

abbrev pub khr_by : (CashMovementType → ℤ → ℤ) → CashMovementRow → ℤ
khr_by f m = f m.movement_type m.amount_khr_delta

abbrev pub any_of : CashMovementType → ℤ → ℤ
any_of _ x = x

abbrev pub non_cash_in : TenderCurrency → SaleRow → ℤ
non_cash_in c x = non_cash_of x.payment_method x.tender_currency c x.tender_amount

abbrev pub khqr_in : TenderCurrency → SaleRow → ℤ
khqr_in c x = khqr_of x.payment_method x.tender_currency c x.tender_amount

unfoldable pub total_of : List SaleRow → List CashMovementRow → CashMovementTotalsRow
total_of sales rows = record {
  total_sales_non_cash_usd = sum_rows (non_cash_in usd) sales;
  total_sales_non_cash_khr = sum_rows (non_cash_in khr) sales;
  total_sales_khqr_usd = sum_rows (khqr_in usd) sales;
  total_sales_khqr_khr = sum_rows (khqr_in khr) sales;
  total_sale_in_usd = sum_rows (usd_by sale_in_of) rows;
  total_sale_in_khr = sum_rows (khr_by sale_in_of) rows;
  total_refund_out_usd = sum_rows (usd_by refund_of) rows;
  total_refund_out_khr = sum_rows (khr_by refund_of) rows;
  total_manual_in_usd = sum_rows (usd_by manual_in_of) rows;
  total_manual_in_khr = sum_rows (khr_by manual_in_of) rows;
  total_manual_out_usd = sum_rows (usd_by manual_out_of) rows;
  total_manual_out_khr = sum_rows (khr_by manual_out_of) rows;
  total_adjustment_usd = sum_rows (usd_by adjustment_of) rows;
  total_adjustment_khr = sum_rows (khr_by adjustment_of) rows;
  total_cash_delta_usd = sum_rows (usd_by any_of) rows;
  total_cash_delta_khr = sum_rows (khr_by any_of) rows;
}

unfoldable pub summarize_movement_totals : Text → Text → CashDb → CashMovementTotalsRow
unfolding total_of window_sales
summarize_movement_totals tenant session db =
    total_of (window_sales (get_session_by_id tenant session db) db)
      (movements_of tenant session db)

-- ===== src/PosOperation/CashSession/Rows.antt =====
-- The tables of cash sessions (cashSession/infra/repository.ts), and what the service reads beside
-- them. Amounts are whole cents: the columns are NUMERIC with two decimals. Times are natural
-- numbers. created_at and updated_at are left out: they are only printed.
use modula_backend.Common.{ℕ, Bool, true, false, Option, List, Text, ℤ}
use modula_backend.Platform.Roles.{RoleKey}

pub data CashSessionStatus : Type 0 where
  open_session closed force_closed : CashSessionStatus

abbrev pub is_open : CashSessionStatus → Bool
is_open open_session = true
is_open _ = false

pub data CashCloseReason : Type 0 where
  normal_close force_close : CashCloseReason

pub data CashMovementType : Type 0 where
  sale_in refund_cash manual_in manual_out adjustment : CashMovementType

pub data CashMovementSourceRefType : Type 0 where
  sale manual system : CashMovementSourceRefType

pub record CashSessionRow : Type 0 where
  pub id : Text
  pub tenant_id : Text
  pub branch_id : Text
  pub opened_by_account_id : Text
  pub opened_at : ℕ
  pub status : CashSessionStatus
  pub opening_float_usd : ℤ
  pub opening_float_khr : ℤ
  pub opening_note : Option Text
  pub closed_by_account_id : Option Text
  pub closed_at : Option ℕ
  pub close_reason : Option CashCloseReason
  pub close_note : Option Text

pub record CashMovementRow : Type 0 where
  pub id : Text
  pub tenant_id : Text
  pub branch_id : Text
  pub cash_session_id : Text
  pub movement_type : CashMovementType
  pub amount_usd_delta : ℤ
  pub amount_khr_delta : ℤ
  pub reason : Option Text
  pub source_ref_type : CashMovementSourceRefType
  pub source_ref_id : Option Text
  pub idempotency_key : Text
  pub recorded_by_account_id : Text
  pub occurred_at : ℕ

pub record CashMovementTotalsRow : Type 0 where
  pub total_sales_non_cash_usd : ℤ
  pub total_sales_non_cash_khr : ℤ
  pub total_sales_khqr_usd : ℤ
  pub total_sales_khqr_khr : ℤ
  pub total_sale_in_usd : ℤ
  pub total_sale_in_khr : ℤ
  pub total_refund_out_usd : ℤ
  pub total_refund_out_khr : ℤ
  pub total_manual_in_usd : ℤ
  pub total_manual_in_khr : ℤ
  pub total_manual_out_usd : ℤ
  pub total_manual_out_khr : ℤ
  pub total_adjustment_usd : ℤ
  pub total_adjustment_khr : ℤ
  pub total_cash_delta_usd : ℤ
  pub total_cash_delta_khr : ℤ

-- The totals that a snapshot stores: all but the cash delta.
pub record StoredTotals : Type 0 where
  pub total_sales_non_cash_usd : ℤ
  pub total_sales_non_cash_khr : ℤ
  pub total_sales_khqr_usd : ℤ
  pub total_sales_khqr_khr : ℤ
  pub total_sale_in_usd : ℤ
  pub total_sale_in_khr : ℤ
  pub total_refund_out_usd : ℤ
  pub total_refund_out_khr : ℤ
  pub total_manual_in_usd : ℤ
  pub total_manual_in_khr : ℤ
  pub total_manual_out_usd : ℤ
  pub total_manual_out_khr : ℤ
  pub total_adjustment_usd : ℤ
  pub total_adjustment_khr : ℤ

abbrev pub stored_totals : CashMovementTotalsRow → StoredTotals
stored_totals t = record {
  total_sales_non_cash_usd = t.total_sales_non_cash_usd;
  total_sales_non_cash_khr = t.total_sales_non_cash_khr;
  total_sales_khqr_usd = t.total_sales_khqr_usd;
  total_sales_khqr_khr = t.total_sales_khqr_khr;
  total_sale_in_usd = t.total_sale_in_usd;
  total_sale_in_khr = t.total_sale_in_khr;
  total_refund_out_usd = t.total_refund_out_usd;
  total_refund_out_khr = t.total_refund_out_khr;
  total_manual_in_usd = t.total_manual_in_usd;
  total_manual_in_khr = t.total_manual_in_khr;
  total_manual_out_usd = t.total_manual_out_usd;
  total_manual_out_khr = t.total_manual_out_khr;
  total_adjustment_usd = t.total_adjustment_usd;
  total_adjustment_khr = t.total_adjustment_khr;
}

pub record CashReconciliationSnapshotRow : Type 0 where
  pub id : Text
  pub tenant_id : Text
  pub branch_id : Text
  pub cash_session_id : Text
  pub status : CashSessionStatus
  pub opening_float_usd : ℤ
  pub opening_float_khr : ℤ
  pub totals : StoredTotals
  pub expected_cash_usd : ℤ
  pub expected_cash_khr : ℤ
  pub counted_cash_usd : ℤ
  pub counted_cash_khr : ℤ
  pub variance_usd : ℤ
  pub variance_khr : ℤ
  pub close_reason : CashCloseReason
  pub closed_by_account_id : Text
  pub closed_at : ℕ

pub data SalePaymentMethod : Type 0 where
  cash khqr : SalePaymentMethod

pub data TenderCurrency : Type 0 where
  usd khr : TenderCurrency

pub data SaleStatus : Type 0 where
  pending finalized void_pending voided : SaleStatus

-- The columns of v0_sales that cash sessions read.
pub record SaleRow : Type 0 where
  pub id : Text
  pub tenant_id : Text
  pub branch_id : Text
  pub status : SaleStatus
  pub payment_method : SalePaymentMethod
  pub tender_currency : TenderCurrency
  pub tender_amount : ℤ
  pub finalized_at : Option ℕ
  pub finalized_by_account_id : Option Text

pub record BranchRow : Type 0 where
  pub id : Text
  pub tenant_id : Text
  pub is_active : Bool

pub record MembershipRow : Type 0 where
  pub tenant_id : Text
  pub account_id : Text
  pub role_key : RoleKey
  pub is_active : Bool

pub record CashDb : Type 0 where
  pub sessions : List CashSessionRow
  pub movements : List CashMovementRow
  pub snapshots : List CashReconciliationSnapshotRow
  pub sales : List SaleRow
  pub branches : List BranchRow
  pub memberships : List MembershipRow

-- What the database supplies to a statement: the generated id and NOW().
pub record Tick : Type 0 where
  pub new_id : Text
  pub now : ℕ

-- ===== src/PosOperation/CashSession/Commands/Valid.antt =====
-- What holds of the tables of cash sessions between two commands.
use modula_backend.Common.{
  ◌≡◌, ◌⊎◌, ◌≤◌, Text, List, true, ◌+ℤ◌, ◌-ℤ◌, All, length, select, find_row, is_some,
}
use modula_backend.PosOperation.CashSession.Rows.{
  CashSessionRow, CashReconciliationSnapshotRow, CashDb, is_open,
}
use modula_backend.PosOperation.CashSession.Repository.{is_active_in}
use modula_backend.PosOperation.CashSession.Totals.Balance.{HasAllowedSigns, balance}
use modula_backend.PosOperation.CashSession.Service.{snapshot_of_session}

-- A snapshot's figures: what is expected is the opening float and what its stored totals net out to, sales less
-- refunds, plus paid-in less paid-out, plus adjustments; and the variance is what was counted over that.
pub record Reconciles (x : CashReconciliationSnapshotRow) : Type 0 where
  pub expected_usd :
      x.expected_cash_usd
      ≡ x.opening_float_usd
        +ℤ balance x.totals.total_sale_in_usd x.totals.total_refund_out_usd
            x.totals.total_manual_in_usd x.totals.total_manual_out_usd x.totals.total_adjustment_usd
  pub expected_khr :
      x.expected_cash_khr
      ≡ x.opening_float_khr
        +ℤ balance x.totals.total_sale_in_khr x.totals.total_refund_out_khr
            x.totals.total_manual_in_khr x.totals.total_manual_out_khr x.totals.total_adjustment_khr
  pub variance_usd : x.variance_usd ≡ x.counted_cash_usd -ℤ x.expected_cash_usd
  pub variance_khr : x.variance_khr ≡ x.counted_cash_khr -ℤ x.expected_cash_khr

-- A session is open, or its snapshot was written.
abbrev pub IsAccounted : List CashReconciliationSnapshotRow → CashSessionRow → Type 0
IsAccounted snapshots s =
    (is_open s.status ≡ true)
    ⊎ (is_some (find_row (snapshot_of_session s.tenant_id s.id) snapshots) ≡ true)

pub record IsValid (db : CashDb) : Type 0 where
  pub one_open :
      (tenant branch : Text) → length (select (is_active_in tenant branch) db.sessions) ≤ 1
  pub signs : All HasAllowedSigns db.movements
  pub reconciled : All Reconciles db.snapshots
  pub accounted : All (IsAccounted db.snapshots) db.sessions

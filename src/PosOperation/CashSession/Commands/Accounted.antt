-- ===== src/PosOperation/CashSession/Commands/Accounted.antt =====
-- Closing a session writes its snapshot and keeps those of the other sessions.
use modula_backend.Common.{
  ◌≡◌, refl, inl, inr, Text, List, [], ◌∷◌, Bool, true, false, find_row, delete_rows, update_rows,
  is_some, eq_iff, arith, All, Bool-cases, if◌then◌else◌,
}
use modula_backend.PosOperation.CashSession.Rows.{CashSessionRow, CashReconciliationSnapshotRow}
use modula_backend.PosOperation.CashSession.Repository.{
  CloseInput, close_row, is_open_session, is_session,
}
use modula_backend.PosOperation.CashSession.Service.{snapshot_of_session}
use modula_backend.PosOperation.CashSession.Commands.Valid.{IsAccounted}

module _ (row : CashReconciliationSnapshotRow) where
  abbrev same : CashReconciliationSnapshotRow → Bool
  same = snapshot_of_session row.tenant_id row.cash_session_id

  abbrev pub upserted : List CashReconciliationSnapshotRow → List CashReconciliationSnapshotRow
  upserted snapshots = row ∷ delete_rows same snapshots

  abbrev Has : Text → Text → List CashReconciliationSnapshotRow → Type 0
  Has tenant session snapshots =
      is_some (find_row (snapshot_of_session tenant session) snapshots) ≡ true

  -- A snapshot that is deleted is one of the row's session.
  deleted_same :
      (tenant session : Text) (x : CashReconciliationSnapshotRow)
      → snapshot_of_session tenant session x ≡ true
      → same x ≡ true
      → snapshot_of_session tenant session row ≡ true
  unfolding snapshot_of_session
  deleted_same tenant session x h k = ground (
    arith,
    eq_iff x.tenant_id tenant,
    eq_iff x.cash_session_id session,
    eq_iff x.tenant_id row.tenant_id,
    eq_iff x.cash_session_id row.cash_session_id,
    eq_iff row.tenant_id tenant,
    eq_iff row.cash_session_id session,
  )

  kept_unless_same :
      (tenant session : Text) (snapshots : List CashReconciliationSnapshotRow)
      → snapshot_of_session tenant session row ≡ false
      → Has tenant session snapshots
      → Has tenant session (delete_rows same snapshots)
  kept_unless_same tenant session [] other h = h
  kept_unless_same tenant session (x ∷ xs) other h =
      ground (arith, kept_unless_same tenant session xs other, deleted_same tenant session x)

  pub Has-after_upsert :
      (tenant session : Text) (snapshots : List CashReconciliationSnapshotRow)
      → Has tenant session snapshots
      → Has tenant session (upserted snapshots)
  Has-after_upsert tenant session snapshots h =
      elim (Bool-cases (snapshot_of_session tenant session row)) [
        | inl same_session ↦ rw same_session refl
        | inr other ↦ rw other (kept_unless_same tenant session snapshots other h)
      ]

  IsAccounted-row :
      (c : Bool) (input : CloseInput) (s : CashSessionRow)
      (snapshots : List CashReconciliationSnapshotRow)
      → (is_open_session row.tenant_id row.cash_session_id s ≡ c)
      → IsAccounted snapshots s
      → IsAccounted (upserted snapshots) (if c then close_row input s else s)
  unfolding is_open_session is_session snapshot_of_session
  IsAccounted-row true input s snapshots h a = inr (
      ground (
        arith,
        eq_iff s.tenant_id row.tenant_id,
        eq_iff s.id row.cash_session_id,
        eq_iff row.tenant_id s.tenant_id,
        eq_iff row.cash_session_id s.id,
      ))
  IsAccounted-row false input s snapshots h (inl opened) = inl opened
  IsAccounted-row false input s snapshots h (inr has) =
      inr (Has-after_upsert s.tenant_id s.id snapshots has)

  pub IsAccounted-closed :
      (input : CloseInput) (rows : List CashSessionRow)
      (snapshots : List CashReconciliationSnapshotRow)
      → All (IsAccounted snapshots) rows
      → All
          (IsAccounted (upserted snapshots))
          (update_rows (is_open_session row.tenant_id row.cash_session_id) (close_row input) rows)
  IsAccounted-closed input [] snapshots h = tt
  IsAccounted-closed input (s ∷ rows) snapshots h =
      (IsAccounted-row _ input s snapshots refl h.0, IsAccounted-closed input rows snapshots h.1)

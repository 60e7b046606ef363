-- ===== src/PosOperation/CashSession/Commands/OneOpen.antt =====
-- Opening and closing keep at most one open session in a branch.
use modula_backend.Common.{
  ℕ, ◌≡◌, ◌∙◌, sym, refl, ◌≤◌, Text, List, [], ◌∷◌, Bool, true, false, length, select, find_row,
  update_rows, is_some, eq_iff, Bool-cases, if◌then◌else◌, inl, inr, arith,
}
use modula_backend.PosOperation.CashSession.Rows.{CashSessionRow, is_open}
use modula_backend.PosOperation.CashSession.Repository.{is_active_in, CloseInput, close_row}

-- The open sessions of a branch.
abbrev pub open_count : Text → Text → List CashSessionRow → ℕ
open_count tenant branch rows = length (select (is_active_in tenant branch) rows)

none_open :
    (tenant branch : Text) (rows : List CashSessionRow)
    → is_some (find_row (is_active_in tenant branch) rows) ≡ false
    → open_count tenant branch rows ≡ 0
none_open tenant branch [] h = refl
none_open tenant branch (s ∷ rows) h = ground (arith, none_open tenant branch rows)

active_ids :
    (s : CashSessionRow) (tenant branch : Text)
    → is_active_in tenant branch s ≡ true
    → (s.tenant_id ≡ tenant) × (s.branch_id ≡ branch)
unfolding is_active_in
active_ids s tenant branch h = ground (arith, eq_iff s.tenant_id tenant, eq_iff s.branch_id branch)

count_same :
    (rows : List CashSessionRow) {t t' b b' : Text}
    → t ≡ t'
    → b ≡ b'
    → open_count t b rows ≡ open_count t' b' rows
count_same rows h k = cc

pub open_count_opened :
    (s : CashSessionRow) (rows : List CashSessionRow)
    → is_some (find_row (is_active_in s.tenant_id s.branch_id) rows) ≡ false
    → ((tenant branch : Text) → open_count tenant branch rows ≤ 1)
    → (tenant branch : Text) → open_count tenant branch (s ∷ rows) ≤ 1
open_count_opened s rows free h tenant branch = elim (Bool-cases (is_active_in tenant branch s)) [
  | inl active ↦
      let (same_tenant, same_branch) = active_ids s tenant branch active in
      let none_other =
        sym (count_same rows same_tenant same_branch)
        ∙ none_open s.tenant_id s.branch_id rows free in
      rw active (omega (arith, none_other))
  | inr inactive ↦ rw inactive (h tenant branch)
]

closed_inactive :
    (input : CloseInput) (s : CashSessionRow) (tenant branch : Text)
    → is_open input.status ≡ false
    → is_active_in tenant branch (close_row input s) ≡ false
unfolding is_active_in
closed_inactive input s tenant branch h = ground arith

close_counts :
    (c : Bool) (input : CloseInput) (s : CashSessionRow) (rows rows' : List CashSessionRow)
    (tenant branch : Text)
    → is_open input.status ≡ false
    → open_count tenant branch rows' ≤ open_count tenant branch rows
    → open_count tenant branch ((if c then close_row input s else s) ∷ rows')
      ≤ open_count tenant branch (s ∷ rows)
close_counts true input s rows rows' tenant branch h k =
    ground (arith, closed_inactive input s tenant branch h)
close_counts false input s rows rows' tenant branch h k = ground arith

pub open_count_closed :
    (input : CloseInput) (p : CashSessionRow → Bool) (rows : List CashSessionRow)
    (tenant branch : Text)
    → is_open input.status ≡ false
    → open_count tenant branch (update_rows p (close_row input) rows)
      ≤ open_count tenant branch rows
open_count_closed input p [] tenant branch h = omega arith
open_count_closed input p (s ∷ rows) tenant branch h =
    close_counts (p s) input s rows (update_rows p (close_row input) rows) tenant branch h
      (open_count_closed input p rows tenant branch h)

-- ===== src/PosOperation/CashSession/Failures.antt =====
-- The errors of cash sessions: `V0CashSessionError` with its status and code (its message says no
-- more than these), and what PostgreSQL reports: the violations of constraints, and a value that does not
-- fit its column.
use modula_backend.Common.{ℕ}

pub data Code : Type 0 where
  uncoded : Code
  tenant_context_required branch_context_required branch_not_found no_membership : Code
  permission_denied : Code
  cash_session_already_open cash_session_not_open cash_session_not_found : Code
  cash_session_forbidden_self_scope cash_session_force_reason_required : Code
  cash_session_not_closed cash_session_z_report_not_found : Code
  cash_movement_amount_required cash_movement_reason_required cash_movement_duplicate : Code

pub data Failure : Type 0 where
  cash_error : ℕ → Code → Failure
  unique_violation check_violation value_out_of_range statement_refused : Failure

-- ===== src/PosOperation/CashSession/Commands/Atomicity.antt =====
-- The write routes of cashSession/api/router.ts where a statement fails.

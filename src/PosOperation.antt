-- ===== src/PosOperation.antt =====
-- The point-of-sale modules under modules/v0/posOperation/.
pub mod CashSession

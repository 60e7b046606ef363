-- ===== src/Platform.antt =====
-- The platform services under platform/.
pub mod Roles
pub mod Transactions
pub mod Outbox
pub mod Idempotency
pub mod AccessControl

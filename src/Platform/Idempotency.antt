-- ===== src/Platform/Idempotency.antt =====
-- platform/idempotency: commands that are run at most once.
pub mod Records
pub mod Service
pub mod Cases
pub mod Invariant
pub mod Replay
pub mod Interleaving
pub mod Ledger
pub mod Views
pub mod Exclusion
pub mod Scope
pub mod Canonical
mod Tests

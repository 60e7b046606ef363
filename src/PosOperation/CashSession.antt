-- ===== src/PosOperation/CashSession.antt =====
-- modules/v0/posOperation/cashSession: cash drawer sessions, their movements and their reports.
pub mod Failures
pub mod Rows
pub mod Money
pub mod Repository
pub mod Movements
pub mod Totals
pub mod Guards
pub mod Bodies
pub mod Service
pub mod Drawer
pub mod Reports
pub mod Subscriber
pub mod Commands
mod Tests

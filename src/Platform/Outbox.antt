-- ===== src/Platform/Outbox.antt =====
-- platform/outbox and platform/events: events that a command writes in its transaction, and the dispatcher that
-- publishes them afterwards.
pub mod Rows
pub mod Bus
pub mod Dispatcher
mod Tests

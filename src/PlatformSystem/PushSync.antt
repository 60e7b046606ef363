-- ===== src/PlatformSystem/PushSync.antt =====
-- modules/v0/platformSystem/pushSync: a client sends the operations that it took while offline.
pub mod Rows
pub mod Repository
pub mod Request
pub mod Order
pub mod Resolution
pub mod Execution
pub mod Replay
pub mod History
mod Tests

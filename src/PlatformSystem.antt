-- ===== src/PlatformSystem.antt =====
-- The modules under modules/v0/platformSystem.
pub mod PushSync
pub mod PullSync

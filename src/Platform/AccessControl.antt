-- ===== src/Platform/AccessControl.antt =====
-- platform/access-control and platform/http/middleware/access-control-hook.ts: who may call a route.
pub mod Types
pub mod DataAccess
pub mod Context
pub mod Authorize
pub mod Hook
mod Tests

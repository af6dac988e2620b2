-- ===== src/Tooling.antt =====
-- Tools and the guard that authorises them (backend/src/agent_platform/infrastructure/tooling).
pub mod Catalog
pub mod PathGuard

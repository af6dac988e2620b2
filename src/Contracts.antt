-- ===== src/Contracts.antt =====
-- The contracts of the delivery stages (backend/src/agent_platform/domain/contracts).
pub mod Stages
pub mod Paths
pub mod StageContract
pub mod Registry
mod Tests

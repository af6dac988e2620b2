-- ===== src/Workflow.antt =====
-- Workflows, their stage runs, rooms and tasks
-- (backend/src/agent_platform/domain/workflows, application/workflows and
-- infrastructure/database/workflow_repository.py).
pub mod Machine
pub mod Models
pub mod Db
pub mod Queries
pub mod Transitions
pub mod Snapshots
pub mod Reopening
pub mod Messages
pub mod Tasks
pub mod Uow
pub mod Service
pub mod Rooms
mod Tests

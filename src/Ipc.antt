-- ===== src/Ipc.antt =====
-- The messages between the backend and its worker (backend/src/agent_platform/interfaces/ipc).
pub mod Messages
pub mod Replay
pub mod Header
pub mod Framing

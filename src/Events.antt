-- ===== src/Events.antt =====
-- The event log and its outbox.
pub mod Log
pub mod Outbox
pub mod Recovery
pub mod LocalAudit
pub mod Dispatcher
pub mod Tickets
pub mod Broker

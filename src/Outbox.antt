-- ===== src/Outbox.antt =====
-- outbox/: delivery of queued notifications through channels that can fail.
pub mod FailurePolicy
pub mod Routing
pub mod Tables
pub mod HealthColumns
pub mod ChannelHealth
pub mod Queue
pub mod Recovery
pub mod Worker

-- ===== src/Queue.antt =====
-- owlclaw/triggers/queue: messages of a queue that start agent runs.
pub mod Config
pub mod Models
pub mod Idempotency
pub mod Tenant
pub mod Redaction
pub mod Effects
pub mod Runtime
pub mod Retry
pub mod Decisions
pub mod Checks
pub mod Processing
pub mod Worker
mod Samples
mod Examples

-- ===== src/Signal.antt =====
-- owlclaw/triggers/signal: manual signals that pause, resume, trigger or instruct an agent.
pub mod Models
pub mod State
pub mod Handlers
pub mod Router
mod Examples

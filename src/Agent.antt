-- ===== src/Agent.antt =====
-- owlclaw/agent: what an agent remembers during a run.
pub mod Stm

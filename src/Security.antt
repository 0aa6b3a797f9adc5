-- ===== src/Security.antt =====
-- owlclaw/security: the part that decides whether a capability may run.
pub mod RiskGate

-- ===== src/Governance/Constraints.antt =====
-- owlclaw/governance/constraints: the evaluators that hide a capability from an agent.
pub mod CircuitBreaker
pub mod RiskConfirmation
pub mod RateLimit
pub mod Budget
pub mod Time

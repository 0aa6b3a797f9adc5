-- ===== src/Governance.antt =====
-- owlclaw/governance: which capabilities an agent may see, which model it uses, what waits for a
-- person, and the ledger of what it did.
mod Examples
pub mod Coerce
pub mod View
pub mod Ledger
pub mod MigrationGate
pub mod Proxy
pub mod Router
pub mod Constraints
pub mod ApprovalQueue
pub mod Visibility

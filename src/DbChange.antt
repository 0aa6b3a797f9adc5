-- ===== src/DbChange.antt =====
-- owlclaw/triggers/db_change: changes of a database that start agent runs.
pub mod Aggregator

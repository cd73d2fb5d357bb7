-- ===== src/Store.antt =====
-- services/protocol-runner-api/src/store.ts: the tables of parallel groups, items, attempts and
-- leases, and the operations on them. Each operation is one write transaction.
pub mod Rows
pub mod Error
pub mod Ids
pub mod Tables
pub mod Grant
pub mod Heartbeat
pub mod AttemptResult
pub mod Retry
pub mod History
pub mod Setup
pub mod Recover
pub mod Control
pub mod Invariant

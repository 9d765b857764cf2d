-- ===== src/Journal.antt =====
-- journal.rs: the durable change sequence of a database.
pub mod Row
pub mod Store
pub mod Invariant
pub mod Prune
pub mod Retention
pub mod Append
pub mod Consumers
pub mod Indexer
mod Examples

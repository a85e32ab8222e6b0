-- ===== src/Tests.antt =====
-- Concrete inputs, and the theorems of the library at them.
pub mod Fixtures
pub mod Encodings
pub mod Core
pub mod Consensus
pub mod Money
pub mod Nodes
pub mod Sync
pub mod Storage
pub mod Relay
pub mod Forks
pub mod Mining

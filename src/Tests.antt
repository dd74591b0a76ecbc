-- ===== src/Tests.antt =====
-- The theorems at concrete inputs: a cluster of four replicas.
mod Fixtures
mod Membership
mod Crypto
mod Consensus
mod Handlers
mod Transfer
mod Reputation
mod Benchmarks
mod Tools

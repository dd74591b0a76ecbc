-- ===== src/Consensus.antt =====
-- internal/consensus: the D-HotStuff replica and its parts.
pub mod Chain
pub mod Safety
pub mod Pipeline
pub mod Deliver
pub mod ViewChange
pub mod Replica

-- ===== src/Bench.antt =====
-- internal/benchutil/cluster.go: a cluster in one process that runs the consensus code, for
-- benchmarks.
pub mod Blocks
pub mod Window
pub mod Counter
pub mod Round
pub mod Members
pub mod Batch
pub mod Cluster

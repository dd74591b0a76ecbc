-- ===== src/Lib.antt =====
-- D-HotStuff: a Byzantine fault tolerant protocol of the HotStuff family whose committee changes
-- at run time. The library models the Go packages under internal/ and proves what they promise to
-- each other.
--
-- The parts and their files:
-- - internal/membership: Membership.Committee (committee.go), Membership.ConfigStore
--   (config_store.go), Membership.Request (request.go) and Membership.Quorum (quorum.go). A
--   committee is a numbered list of replicas with a fault bound; Apply makes the next one, and
--   ConfigStore is the append-only log of them, where a configuration stands at its number.
-- - internal/crypto: Crypto.Encoding and Crypto.Signer (signer.go) and Crypto.Votes
--   (ecdsa_qc.go): signatures over (view, configuration, block hash), and votes counted by signer.
-- - internal/consensus: Consensus.Chain and Consensus.Safety (safety.go), Consensus.Pipeline
--   (pipeline.go), Consensus.Deliver (deliver.go), Consensus.ViewChange (viewchange.go), and
--   Consensus.Replica (dhotstuff.go), which puts them together: Replica.Proposals is HandlePropose,
--   Replica.Votes is HandleVote, Replica.NewViews is HandleNewView, Replica.Timeouts is
--   HandleTimeout.
-- - internal/reputation: Reputation (store.go), statistics of leaders and a choice of leader by
--   score, which a replica uses in place of the rotation if it has a store.
-- - internal/statetransfer: StateTransfer.History (history.go) and StateTransfer.Syncer
--   (syncer.go). internal/discovery: Discovery (discovery.go). A replica that joins or is behind
--   asks the members of a committee.
-- - internal/network: Network.Pool (pool.go), Network.Transport (transport.go) and Network.Router
--   (router.go).
-- - internal/benchutil and internal/repbench (cluster.go in each): Bench and RepBench, clusters in
--   one process that run rounds of the consensus code. Bench.Blocks is the block store in memory,
--   Bench.Window and Bench.Counter the window and the counter of what is committed, Bench.Round the
--   steps that both clusters share, Bench.Cluster and RepBench the clusters, RepBench.Benchmark what
--   RunBenchmark reports. The parts that repbench repeats word for word are modelled once.
-- - cmd/keygen (main.go): Keygen, and Crypto.Keys for the key files that signer.go reads.
-- - tests/simulation (network_sim.go): Simulation, a network that is synchronous from some time on.
-- - proto/dhotstuff.proto: Proto, the messages. External is what the program takes from
--   crypto/sha256, crypto/ecdsa and crypto/x509.
--
-- How code becomes definitions. A Go struct is a record, an operation a function from the state
-- before to the state after, with one definition for each function and named helpers for its loops
-- and branches. A handler holds the replica's mutex throughout, so it is one step; HandleTimeout
-- takes it twice, and its three steps are three definitions. A handler's control flow is
-- Prelude.Flow: a panic, an early return, or the state to go on with. Errors are values of
-- Prelude.Errors, without their texts. A nil pointer is `none`, a Go map an association list
-- (Prelude.Table), a set a list with a test (Prelude.Distinct). Calls of the executor, the replier
-- and the network are recorded in order in the state. Where goroutines send to a channel, the
-- answers that arrive are a list in the order of their arrival, and a deadline is the end of the
-- list. GetConn takes the pool under each of its two locks.
--
-- A round of a benchmark and the key generator may panic, fail or return: Prelude.Outcome, beside
-- the state that they leave. The interface that the consensus code has to a block store is
-- Consensus.Chain.Readers, a record of laws; Bench.Blocks.Lawful proves them of the store in memory.
--
-- Integers are natural numbers; uint64 increments and subtractions wrap around at 2 ^ 64 where the
-- source's do. What the source counts in an int (requests, rounds, timeouts) has no bound here, so
-- the counts are those of runs that stay below 2 ^ 63. A float64 is its bit pattern, with arithmetic
-- and order as parameters. sort.Slice, of which Select uses the first element, is a search for an
-- element before which no other ranks. Each
-- loop is structural recursion on a list or on a counter. The only bounds are those of the source,
-- such as the 1024 rounds of Extends, but for the digits of Prelude.Decimal and of big.Int, which
-- take as many rounds as the number, more than it has digits.
--
-- Parameters: SHA-256, ecdsa and x509 (External), the block store (BlockchainReader), the network,
-- the executor, the signing function, gRPC connections and calls, key generation, random numbers,
-- pem, base64 and the file system. Theorems that need a law of one
-- of these have it as a hypothesis: SHA-256 without collisions, a signature that verifies for one
-- digest alone, the order of the bit patterns that are numbers, keys that are generated and sign, a
-- random number below its bound, encodings that are read back, a path that is joined from a
-- directory and a name without separators.
--
-- Not modelled: the texts of log lines and errors, dial options and timeouts, the times and rates
-- that benchmarks measure, metrics, which only register counters, the empty main.go, and the
-- generated code of proto/. Mutexes appear as the steps that they delimit.
pub mod Prelude
pub mod Proto
pub mod External
pub mod Membership
pub mod Crypto
pub mod Consensus
pub mod Reputation
pub mod StateTransfer
pub mod Discovery
pub mod Network
pub mod Keygen
pub mod Bench
pub mod RepBench
pub mod Simulation
pub mod Tests

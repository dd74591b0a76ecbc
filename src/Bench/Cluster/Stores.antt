-- ===== src/Bench/Cluster/Stores.antt =====
-- The block store of a cluster, after rounds that succeed or fail.
use d_hotsuff.Prelude.{ℕ, zero, suc, ◌≡◌, refl, Option, none, some, List, [], ◌+◌}
use d_hotsuff.Prelude.Outcome.{
  Outcome, panicked, failed, done, Outcome-cases, is_panicked, is_failed, is_done,
}
use d_hotsuff.Proto.{Block, MembershipRequest, QuorumCert}
use d_hotsuff.External.{External, PrivateKey}
use d_hotsuff.Membership.Committee.{Committee}
use d_hotsuff.Membership.ConfigStore.{latest}
use d_hotsuff.Consensus.Chain.Readers.{IsLawful}
use d_hotsuff.Bench.Blocks.{put, reader}
use d_hotsuff.Bench.Blocks.Keys.{IsKeyed, nil-IsKeyed, put-IsKeyed}
use d_hotsuff.Bench.Blocks.Lawful.{reader-IsLawful}
use d_hotsuff.Bench.Round.{genesis}
use d_hotsuff.Bench.Cluster.{
  BenchCluster, proposal, settle_round, close_round, round_of, run_round, run_rounds, fresh_cluster,
}

close_round-chain :
    (x : External) (block : Block) (c : BenchCluster) (qc : Outcome QuorumCert)
    → (close_round x block c qc).0.chain ≡ c.chain
unfolding close_round settle_round
close_round-chain x block c panicked = refl
close_round-chain x block c (failed e) = refl
close_round-chain x block c (done qc) = refl

round_of-IsKeyed :
    (x : External) (c : BenchCluster) (batch : List MembershipRequest) (mc : Option Committee)
    → IsKeyed x c.chain
    → IsKeyed x (round_of x c batch mc).0.chain
unfolding round_of
round_of-IsKeyed x c batch none k = k
round_of-IsKeyed x c batch (some mc) k =
    let block = proposal c mc batch in
    rw (close_round-chain x block (record c { chain = put x block c.chain }) _)
      (put-IsKeyed x block c.chain k)

run_rounds-IsKeyed :
    (x : External) (n : ℕ) (batch : List MembershipRequest) (total : ℕ) (c : BenchCluster)
    → IsKeyed x c.chain
    → IsKeyed x (run_rounds x n batch total c).0.chain
unfolding run_rounds run_round
run_rounds-IsKeyed x zero batch total c k = k
run_rounds-IsKeyed x (suc n) batch total c k =
    let c1 = (run_round x c batch).0 in
    let k1 = round_of-IsKeyed x c batch (latest c.dlv.configs) k in
    elim (Outcome-cases (run_round x c batch).1) [
      | is_panicked out ↦ rw (out, run_rounds) k1
      | is_failed e out ↦ rw (out, run_rounds) k1
      | is_done r out ↦ rw (out, run_rounds) (run_rounds-IsKeyed x n batch (total + r) c1 k1)
    ]

-- If its blocks stand under their own hashes, then after any rounds, succeeding or not, the block
-- store of a cluster keeps the laws of a block store: what Get finds has the hash asked for, and
-- what Extends accepts is reached by the parent hashes of stored blocks.
pub run_rounds-IsLawful :
    (x : External) (n : ℕ) (batch : List MembershipRequest) (total : ℕ) (c : BenchCluster)
    → IsKeyed x c.chain
    → IsLawful x (reader (run_rounds x n batch total c).0.chain)
run_rounds-IsLawful x n batch total c k =
    reader-IsLawful x _ (run_rounds-IsKeyed x n batch total c k)

pub fresh_cluster-IsKeyed :
    (x : External) (n : ℕ) (keys : List PrivateKey) (mc : Committee)
    → IsKeyed x (fresh_cluster x n keys mc).chain
fresh_cluster-IsKeyed x n keys mc = put-IsKeyed x genesis [] (nil-IsKeyed x)

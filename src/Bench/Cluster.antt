-- ===== src/Bench/Cluster.antt =====
-- BenchCluster of internal/benchutil/cluster.go. Times and rates are not modelled.
pub mod Certified
pub mod Rounds
pub mod Locks
pub mod Stores
use d_hotsuff.Prelude.{
  ℕ, zero, suc, ◌+◌, ◌*◌, ◌/◌, ◌%◌, Bytes, Option, none, some, List, [], ◌∷◌, ◌++◌, get_elem?, map,
  ltb, inc64, if◌then◌else◌, Result, ok, err, too_few_replicas, keygen_failed, index_out_of_range,
}
use d_hotsuff.Prelude.Decimal.{decimal}
use d_hotsuff.Prelude.Outcome.{Outcome, panicked, failed, done, present, outcome_of, ◌>>=◌}
use d_hotsuff.Proto.{Block, MembershipRequest, QuorumCert, VoteMsg, regular}
use d_hotsuff.External.{External, PrivateKey}
use d_hotsuff.Membership.Committee.{Replica, Committee, new_committee}
use d_hotsuff.Membership.ConfigStore.{latest, new_config_store}
use d_hotsuff.Crypto.Signer.{sign}
use d_hotsuff.Crypto.Votes.{create_qc}
use d_hotsuff.Consensus.Chain.{hash_block}
use d_hotsuff.Consensus.Safety.{SafetyState}
use d_hotsuff.Consensus.Pipeline.{PipelineState, empty_window}
use d_hotsuff.Bench.Blocks.{MemBlockchain, new_mem_blockchain, put}
use d_hotsuff.Bench.Window
use d_hotsuff.Bench.Counter
use d_hotsuff.Bench.Counter.{DeliverCounter}
use d_hotsuff.Bench.Members.{Keygen, make_members, keys_of, replicas_of}
use d_hotsuff.Bench.Round.{genesis, genesis_qc, certify_block, update_safety, fresh_safety}

-- The store of configurations is the one of the counter, which the field Configs points to.
pub record BenchCluster : Type 0 where
  pub n : ℕ
  pub mc : Committee
  pub keys : List PrivateKey
  pub safety : List SafetyState
  pub pipeline : PipelineState
  pub chain : MemBlockchain
  pub dlv : DeliverCounter
  pub cur_view : ℕ
  pub cur_height : ℕ
  pub generic_qc : Option QuorumCert
  pub last_hash : Bytes

-- the cluster of a committee, before its first round
abbrev pub fresh_cluster : External → ℕ → List PrivateKey → Committee → BenchCluster
fresh_cluster x n keys mc = record {
  n = n;
  mc = mc;
  keys = keys;
  safety = fresh_safety x n;
  pipeline = empty_window;
  chain = put x genesis new_mem_blockchain;
  dlv = record { delivered = 0; configs = new_config_store mc };
  cur_view = 1;
  cur_height = 1;
  generic_qc = some (genesis_qc x);
  last_hash = hash_block x genesis;
}

unfoldable pub new_bench_cluster : External → Keygen → ℕ → Outcome BenchCluster
unfolding make_members new_committee
new_bench_cluster x generate n = if ltb n 4 then failed too_few_replicas else do
  members ← make_members generate n 0
  done (fresh_cluster x n (keys_of members) (new_committee 0 (replicas_of members)))

-- step 1: the block of the leader
abbrev pub proposal : BenchCluster → Committee → List MembershipRequest → Block
proposal c mc batch = record {
  parent_hash = c.last_hash;
  batch = batch;
  justify = c.generic_qc;
  height = c.cur_height;
  conf_number = mc.number;
}

-- if toCommit != nil { … }
commit : External → DeliverCounter → Option Block → DeliverCounter × ℕ
commit x d none = (d, 0)
commit x d (some to_commit) = Counter.deliver x d to_commit

-- steps 4 and 5, and the assignments behind them
unfoldable pub settle_round : External → Block → QuorumCert → BenchCluster → BenchCluster × ℕ
unfolding commit
settle_round x block qc c =
    let (pipeline, to_commit) = Window.advance x c.pipeline block in
    let (dlv, tx_delivered) = commit x c.dlv to_commit in
    (
      record c {
        safety = map (update_safety x c.chain block qc) c.safety;
        pipeline = pipeline;
        dlv = dlv;
        generic_qc = some qc;
        last_hash = hash_block x block;
        cur_view = inc64 c.cur_view;
        cur_height = inc64 c.cur_height;
      },
      tx_delivered,
    )

-- An error returns early; the block stays in the store.
close_round : External → Block → BenchCluster → Outcome QuorumCert → BenchCluster × Outcome ℕ
unfolding settle_round
close_round x block c panicked = (c, panicked)
close_round x block c (failed e) = (c, failed e)
close_round x block c (done qc) = let (c', n) = settle_round x block qc c in (c', done n)

round_of :
    External → BenchCluster → List MembershipRequest → Option Committee → BenchCluster × Outcome ℕ
unfolding close_round
round_of x c batch none = (c, panicked)
round_of x c batch (some mc) =
    let block = proposal c mc batch in
    let stored = record c { chain = put x block c.chain } in
    close_round x block stored (certify_block x c.cur_view mc.number (hash_block x block) c.keys mc)

-- RunRound: the cluster after the round, and TxDelivered
unfoldable pub run_round :
    External → BenchCluster → List MembershipRequest → BenchCluster × Outcome ℕ
unfolding round_of
run_round x c batch = round_of x c batch (latest c.dlv.configs)

-- the loop of RunRounds: the rounds left, and txTotal
unfoldable pub run_rounds :
    External → ℕ → List MembershipRequest → ℕ → BenchCluster → BenchCluster × Outcome ℕ
run_rounds x zero batch tx_total c = (c, done tx_total)
run_rounds x (suc rounds) batch tx_total c =
    let (c', result) = run_round x c batch in
    elim result [
      | panicked ↦ (c', panicked)
      | failed e ↦ (c', failed e)
      | done n ↦ run_rounds x rounds batch (tx_total + n) c'
    ]

-- `idx` is not negative; the code refuses a negative one as it does one out of range.
unfoldable pub sign_block : External → BenchCluster → ℕ → ℕ → ℕ → Bytes → Outcome Bytes
sign_block x c idx view_num conf_num block_hash = elim (get_elem? c.keys idx) [
  | none ↦ failed index_out_of_range
  | some key ↦ outcome_of (sign x key.ecdsa_sign view_num conf_num block_hash)
]

unfoldable pub create_qc_from_votes : BenchCluster → List VoteMsg → Outcome QuorumCert
create_qc_from_votes c votes = do
  mc ← present (latest c.dlv.configs)
  outcome_of (create_qc votes mc)

unfoldable pub reset : External → BenchCluster → BenchCluster
unfolding Window.reset Counter.reset
reset x c = record c {
  pipeline = Window.reset c.pipeline;
  cur_view = 1;
  cur_height = 1;
  chain = put x genesis new_mem_blockchain;
  generic_qc = some (genesis_qc x);
  last_hash = hash_block x genesis;
  safety =
      map (λ (s : SafetyState). record { locked_qc = none; generic_qc = some (genesis_qc x) })
        c.safety;
  dlv = Counter.reset c.dlv;
}

abbrev pub total_delivered : BenchCluster → ℕ
total_delivered c = Counter.total c.dlv

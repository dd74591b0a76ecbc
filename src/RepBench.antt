-- ===== src/RepBench.antt =====
-- RepBenchCluster of internal/repbench/cluster.go: rounds with Byzantine leaders that time out,
-- and leaders by rotation or by reputation. Times and rates are not modelled.
pub mod Benchmark
pub mod Rounds
pub mod Totals
pub mod Rotation
pub mod Timeouts
use d_hotsuff.Prelude.{
  ℕ, zero, suc, ◌+◌, Bytes, bytes_instance, Bool, true, false, Option, none, some, List, [], ◌∷◌,
  length, map, ltb, inc64, if◌then◌else◌, too_few_replicas,
}
use d_hotsuff.Prelude.Distinct.{seen}
use d_hotsuff.Prelude.Outcome.{Outcome, panicked, failed, done, outcome_of, ◌>>=◌}
use d_hotsuff.Proto.{Block, MembershipRequest, QuorumCert}
use d_hotsuff.External.{External, PrivateKey}
use d_hotsuff.Membership.Committee
use d_hotsuff.Membership.Committee.{Replica, Committee, new_committee, quorum_size}
use d_hotsuff.Reputation
use d_hotsuff.Reputation.{
  Floats, Store, new_store, record_leader_round, record_commit, record_timeout,
}
use d_hotsuff.Crypto.Signer.{sign}
use d_hotsuff.Consensus.Chain.{hash_block}
use d_hotsuff.Consensus.Safety.{SafetyState}
use d_hotsuff.Consensus.Pipeline.{PipelineState, empty_window}
use d_hotsuff.Bench.Blocks.{MemBlockchain, new_mem_blockchain, put}
use d_hotsuff.Bench.Window
use d_hotsuff.Bench.Members.{Keygen, make_members, keys_of, replicas_of, id_at}
use d_hotsuff.Bench.Round.{genesis, genesis_qc, certify_block, update_safety, fresh_safety}

pub data LeaderMode : Type 0 where
  round_robin reputation : LeaderMode

-- `byzantine_ids` holds the keys of the map. The selector's store is `rep_store`; the code sets
-- and clears the two together.
pub record RepBenchCluster : Type 0 where
  pub n : ℕ
  pub mode : LeaderMode
  pub mc : Committee
  pub keys : List PrivateKey
  pub safety : List SafetyState
  pub pipeline : PipelineState
  pub chain : MemBlockchain
  pub cur_view : ℕ
  pub cur_height : ℕ
  pub generic_qc : Option QuorumCert
  pub last_hash : Bytes
  pub byzantine_ids : List Bytes
  pub rep_store : Option Store
  pub delivered : ℕ
  pub view_changes : ℕ
  pub success_round : ℕ

-- the loop over `byzantineIndices`: those out of range are skipped; no index is negative
unfoldable pub mark_byzantine : ℕ → List ℕ → List Bytes → List Bytes
mark_byzantine n [] marked = marked
mark_byzantine n (idx ∷ indices) marked =
    let more = if seen (id_at idx) marked then marked else id_at idx ∷ marked in
    mark_byzantine n indices (if ltb idx n then more else marked)

-- what the constructor and Reset store in repStore
abbrev pub store_for : Floats → LeaderMode → Option Store
store_for f round_robin = none
store_for f reputation = some (new_store f)

-- the cluster of a committee, before its first round
abbrev pub fresh_cluster :
    External → Floats → ℕ → LeaderMode → List ℕ → List PrivateKey → Committee → RepBenchCluster
fresh_cluster x f n mode indices keys mc = record {
  n = n;
  mode = mode;
  mc = mc;
  keys = keys;
  safety = fresh_safety x n;
  pipeline = empty_window;
  chain = put x genesis new_mem_blockchain;
  cur_view = 1;
  cur_height = 1;
  generic_qc = some (genesis_qc x);
  last_hash = hash_block x genesis;
  byzantine_ids = mark_byzantine n indices [];
  rep_store = store_for f mode;
  delivered = 0;
  view_changes = 0;
  success_round = 0;
}

unfoldable pub new_rep_bench_cluster :
    External → Floats → Keygen → ℕ → LeaderMode → List ℕ → Outcome RepBenchCluster
unfolding make_members new_committee
new_rep_bench_cluster x f generate n mode indices = if ltb n 4 then failed too_few_replicas else do
  members ← make_members generate n 0
  let mc = new_committee 0 (replicas_of members)
  done (fresh_cluster x f n mode indices (keys_of members) mc)

leader_by : Floats → LeaderMode → Option Store → Committee → ℕ → Option Replica
leader_by f reputation (some store) mc view = Reputation.select f store mc view
leader_by f _ _ mc view = Committee.leader mc view

-- `none` is a panic, of Leader or of the use of a nil replica
unfoldable pub select_leader : Floats → RepBenchCluster → Option Replica
unfolding leader_by
select_leader f c = leader_by f c.mode c.rep_store c.mc c.cur_view

-- if c.repStore != nil { … }
abbrev pub with_reputation : (Store → Store) → RepBenchCluster → RepBenchCluster
with_reputation f c = record c {
  rep_store = elim c.rep_store [ none ↦ none | some s ↦ some (f s) ];
}

abbrev pub dummy_hash : Bytes
dummy_hash = genesis.parent_hash

-- the signatures of the simulated view change, which are dropped
sign_dummies : External → ℕ → ℕ → List PrivateKey → Outcome (Unit {0})
sign_dummies x view zero keys = done tt
sign_dummies x view (suc rounds) [] = done tt
sign_dummies x view (suc rounds) (key ∷ keys) = do
  sig ← outcome_of (sign x key.ecdsa_sign view 0 dummy_hash)
  sign_dummies x view rounds keys

pub record RoundResult : Type 0 where
  pub leader : Bytes
  pub was_timeout : Bool
  pub tx_delivered : ℕ

-- the branch of a Byzantine leader
time_out : Bytes → RepBenchCluster → Outcome (Unit {0}) → RepBenchCluster × Outcome RoundResult
time_out id c panicked = (c, panicked)
time_out id c (failed e) = (c, failed e)
time_out id c (done _) =
    let counted = with_reputation (λ s. record_timeout s id) c in
    (
      record counted { view_changes = c.view_changes + 1; cur_view = inc64 c.cur_view },
      done (record { leader = id; was_timeout = true; tx_delivered = 0 }),
    )

abbrev pub proposal : RepBenchCluster → List MembershipRequest → Block
proposal c batch = record {
  parent_hash = c.last_hash;
  batch = batch;
  justify = c.generic_qc;
  height = c.cur_height;
  conf_number = 0;
}

abbrev pub tx_of : Option Block → ℕ
tx_of none = 0
tx_of (some to_commit) = length to_commit.batch

-- what follows the certificate of an honest leader's block
settle_round :
    External → Bytes → Block → QuorumCert → RepBenchCluster → RepBenchCluster × Outcome RoundResult
settle_round x id block qc c =
    let (pipeline, to_commit) = Window.advance x c.pipeline block in
    let rewarded = with_reputation (λ s. record_commit s id c.cur_height) c in
    (
      record rewarded {
        safety = map (update_safety x c.chain block qc) c.safety;
        pipeline = pipeline;
        delivered = c.delivered + tx_of to_commit;
        generic_qc = some qc;
        last_hash = hash_block x block;
        cur_view = inc64 c.cur_view;
        cur_height = inc64 c.cur_height;
        success_round = c.success_round + 1;
      },
      done (record { leader = id; was_timeout = false; tx_delivered = tx_of to_commit }),
    )

close_round :
    External
    → Bytes
    → Block
    → RepBenchCluster
    → Outcome QuorumCert
    → RepBenchCluster × Outcome RoundResult
unfolding settle_round
close_round x id block c panicked = (c, panicked)
close_round x id block c (failed e) = (c, failed e)
close_round x id block c (done qc) = settle_round x id block qc c

-- the branch of an honest leader
consensus_round :
    External
    → Bytes
    → RepBenchCluster
    → List MembershipRequest
    → RepBenchCluster × Outcome RoundResult
unfolding close_round
consensus_round x id c batch =
    let block = proposal c batch in
    let stored = record c { chain = put x block c.chain } in
    close_round x id block stored (certify_block x c.cur_view 0 (hash_block x block) c.keys c.mc)

round_by :
    External
    → RepBenchCluster
    → List MembershipRequest
    → Option Replica
    → RepBenchCluster × Outcome RoundResult
unfolding time_out consensus_round sign_dummies
round_by x c batch none = (c, panicked)
round_by x c batch (some leader) =
    let led = with_reputation (λ s. record_leader_round s leader.id) c in
    if seen leader.id c.byzantine_ids
    then time_out leader.id led (sign_dummies x c.cur_view (quorum_size c.mc) c.keys)
    else consensus_round x leader.id led batch

unfoldable pub run_round :
    External
    → Floats
    → RepBenchCluster
    → List MembershipRequest
    → RepBenchCluster × Outcome RoundResult
unfolding round_by select_leader
run_round x f c batch = round_by x c batch (select_leader f c)

unfoldable pub reset : External → Floats → RepBenchCluster → RepBenchCluster
unfolding Window.reset
reset x f c = record c {
  pipeline = Window.reset c.pipeline;
  cur_view = 1;
  cur_height = 1;
  delivered = 0;
  view_changes = 0;
  success_round = 0;
  chain = put x genesis new_mem_blockchain;
  generic_qc = some (genesis_qc x);
  last_hash = hash_block x genesis;
  safety =
      map (λ (s : SafetyState). record { locked_qc = none; generic_qc = some (genesis_qc x) })
        c.safety;
  rep_store = elim c.mode [ reputation ↦ some (new_store f) | round_robin ↦ c.rep_store ];
}

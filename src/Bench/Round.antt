-- ===== src/Bench/Round.antt =====
-- The steps that the rounds of internal/benchutil/cluster.go and of internal/repbench/cluster.go
-- share: the signatures of a quorum, its certificate, and the safety variables.
pub mod Accepted
pub mod Certificates
use d_hotsuff.Prelude.{
  ℕ, zero, suc, Bytes, Option, none, some, List, [], ◌∷◌, drop, map, replicate, if◌then◌else◌,
}
use d_hotsuff.Prelude.Outcome.{Outcome, done, present, outcome_of, ◌>>=◌}
use d_hotsuff.Proto.{Block, QuorumCert, VoteMsg}
use d_hotsuff.External.{External, PrivateKey}
use d_hotsuff.Membership.Committee.{Replica, Committee, quorum_size}
use d_hotsuff.Crypto.Signer.{sign}
use d_hotsuff.Crypto.Votes.{aggregate_votes, create_qc}
use d_hotsuff.Consensus.Chain.{hash_block, certifies}
use d_hotsuff.Consensus.Safety.{SafetyState, safe_node}
use d_hotsuff.Bench.Blocks.{MemBlockchain, get, reader}

abbrev pub genesis : Block
genesis = record {
  parent_hash = replicate 32 0;
  batch = [];
  justify = none;
  height = 0;
  conf_number = 0;
}

abbrev pub genesis_qc : External → QuorumCert
genesis_qc x = record {
  type = [];
  view_number = 0;
  conf_number = 0;
  block_hash = hash_block x genesis;
  signatures = [];
  signer_ids = [];
}

first_of : List Replica → Option Replica
first_of [] = none
first_of (r ∷ rs) = some r

abbrev pub vote_of : ℕ → ℕ → Bytes → Replica → Bytes → VoteMsg
vote_of view conf block_hash r sig = record {
  view_number = view;
  conf_number = conf;
  block_hash = block_hash;
  signature = sig;
  signer_id = r.id;
}

-- the loop over `i < qSize && i < len(c.keys)`: keys and replicas from the i-th on, which is where
-- mc.Replicas[i] panics if there is none
unfoldable pub sign_votes :
    External → ℕ → ℕ → Bytes → ℕ → List PrivateKey → List Replica → Outcome (List VoteMsg)
unfolding first_of
sign_votes x view conf block_hash zero keys replicas = done []
sign_votes x view conf block_hash (suc rounds) [] replicas = done []
sign_votes x view conf block_hash (suc rounds) (key ∷ keys) replicas = do
  sig ← outcome_of (sign x key.ecdsa_sign view conf block_hash)
  r ← present (first_of replicas)
  votes ← sign_votes x view conf block_hash rounds keys (drop 1 replicas)
  done (vote_of view conf block_hash r sig ∷ votes)

-- the loop over AggregateVotes
unfoldable pub aggregate_all : List VoteMsg → List VoteMsg → List VoteMsg
aggregate_all acc [] = acc
aggregate_all acc (v ∷ votes) = aggregate_all (aggregate_votes acc v) votes

-- steps 2 and 3: the certificate of a block, with the view that is written into it
unfoldable pub certify_block :
    External → ℕ → ℕ → Bytes → List PrivateKey → Committee → Outcome QuorumCert
certify_block x view conf block_hash keys mc = do
  votes ← sign_votes x view conf block_hash (quorum_size mc) keys mc.replicas
  qc ← outcome_of (create_qc (aggregate_all [] votes) mc)
  done (record qc { view_number = view })

lock_on : External → Block → Option Block → SafetyState → SafetyState
lock_on x block none s = s
lock_on x block (some parent) s =
    if certifies x block parent then record s { locked_qc = block.justify } else s

-- step 4, for one replica
unfoldable pub update_safety :
    External → MemBlockchain → Block → QuorumCert → SafetyState → SafetyState
unfolding lock_on
update_safety x m block qc s =
    if safe_node s block block.justify (reader m)
    then lock_on x block (get m block.parent_hash) (record s { generic_qc = some qc })
    else s

-- the safety variables of `n` replicas at the start
abbrev pub fresh_safety : External → ℕ → List SafetyState
fresh_safety x n = replicate n (record { locked_qc = none; generic_qc = some (genesis_qc x) })

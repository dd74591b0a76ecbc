-- ===== src/Consensus/Safety.antt =====
-- internal/consensus/safety.go: the voting rule and its two variables.
pub mod Voting
use d_hotsuff.Prelude.{Bool, true, false, Option, none, some, ltb, if◌then◌else◌}
use d_hotsuff.Proto.{Block, QuorumCert, view_of, hash_of}
use d_hotsuff.External.{External}
use d_hotsuff.Consensus.Chain.{BlockchainReader, certifies}

pub record SafetyState : Type 0 where
  pub locked_qc : Option QuorumCert
  pub generic_qc : Option QuorumCert

safe_with : Option QuorumCert → Block → Option QuorumCert → BlockchainReader → Bool
safe_with none node qc bc = true
safe_with (some locked) node qc bc =
    if ltb locked.view_number (view_of qc)
    then true
    else bc.extends node.parent_hash locked.block_hash

unfoldable pub safe_node : SafetyState → Block → Option QuorumCert → BlockchainReader → Bool
unfolding safe_with
safe_node s node qc bc = safe_with s.locked_qc node qc bc

unfoldable pub update_on_one_chain : External → SafetyState → Block → Block → SafetyState
update_on_one_chain x s b_star b_double =
    if certifies x b_star b_double then record s { generic_qc = b_star.justify } else s

unfoldable pub update_on_two_chain : External → SafetyState → Block → Block → Block → SafetyState
update_on_two_chain x s b_star b_double b_prime =
    if certifies x b_star b_double
    then (if certifies x b_double b_prime then record s { locked_qc = b_double.justify } else s)
    else s

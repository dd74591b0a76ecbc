-- ===== src/Consensus/Replica/Proposals.antt =====
-- HandlePropose of internal/consensus/dhotstuff.go.
pub mod Commits
pub mod Keeps
use d_hotsuff.Prelude.{
  ℕ, Bytes, Bool, true, false, Option, none, some, List, [], ◌∷◌, ◌++◌, ltb, if◌then◌else◌,
}
use d_hotsuff.Prelude.Flow.{Flow, panic, returned, next, demand, ◌>>=◌}
use d_hotsuff.Proto.{Block, QuorumCert, VoteMsg}
use d_hotsuff.Membership.Committee.{Replica, Committee}
use d_hotsuff.Membership.ConfigStore.{latest}
use d_hotsuff.Reputation.{Store, record_commit}
use d_hotsuff.Consensus.Chain.{BlockchainReader, hash_block}
use d_hotsuff.Consensus.Safety.{safe_node, update_on_one_chain, update_on_two_chain}
use d_hotsuff.Consensus.Pipeline.{advance}
use d_hotsuff.Consensus.Deliver.{deliver, check_three_chain}
use d_hotsuff.Consensus.ViewChange.{unicast, vote_msg}
use d_hotsuff.Consensus.Replica.{Environment, DHotStuff, select_leader, with_store, send}

-- the block that a certificate names, if the store has it
pub certified : BlockchainReader → Option QuorumCert → Option Block
certified bc none = none
certified bc (some qc) = bc.get qc.block_hash

pub justified : BlockchainReader → Option Block → Option Block
unfolding certified
justified bc none = none
justified bc (some b) = certified bc b.justify

-- b'', b' and b: each is looked up through the certificate of the one before
pub record Walk : Type 0 where
  pub b_double : Option Block
  pub b_prime : Option Block
  pub b : Option Block

unfoldable pub walk : BlockchainReader → Block → Walk
unfolding certified justified
walk bc b_star =
    let b_double = certified bc b_star.justify in
    let b_prime = justified bc b_double in
    record { b_double = b_double; b_prime = b_prime; b = justified bc b_prime }

-- the vote that is sent for a block
unfoldable pub vote_for : DHotStuff → Committee → Bytes → Bytes → VoteMsg
vote_for d mc block_hash sig = record {
  view_number = d.cur_view;
  conf_number = mc.number;
  block_hash = block_hash;
  signature = sig;
  signer_id = d.my_id;
}

-- a signing error ends the handler
unfoldable pub signed_vote :
    Environment → Committee → Bytes → Option Bytes → DHotStuff → Flow DHotStuff
signed_vote e mc block_hash none d = returned d
signed_vote e mc block_hash (some sig) d =
    demand (select_leader e d mc)
      λ leader. next (send (unicast leader.addr (vote_msg (vote_for d mc block_hash sig))) d)

-- the signature is over (block.conf_number, mc.number, hash)
unfoldable pub cast_vote : Environment → Committee → Block → DHotStuff → Flow DHotStuff
unfolding signed_vote
cast_vote e mc b_star d =
    let block_hash = hash_block e.external b_star in
    signed_vote e mc block_hash (e.sign_fn b_star.conf_number mc.number block_hash) d

unfoldable pub vote_if_safe : Environment → Committee → Block → DHotStuff → Flow DHotStuff
vote_if_safe e mc b_star d =
    if safe_node d.safety b_star b_star.justify e.blockchain
    then cast_vote e mc b_star d
    else next d

pub one_chain : Environment → Block → Option Block → DHotStuff → DHotStuff
one_chain e b_star none d = d
one_chain e b_star (some b_double) d = record d {
  safety = update_on_one_chain e.external d.safety b_star b_double;
}

pub two_chain : Environment → Block → Option Block → Option Block → DHotStuff → DHotStuff
two_chain e b_star (some b_double) (some b_prime) d = record d {
  safety = update_on_two_chain e.external d.safety b_star b_double b_prime;
}
two_chain e b_star _ _ d = d

-- Deliver; its error is only logged
unfoldable pub deliver_logged : Environment → Block → DHotStuff → DHotStuff
deliver_logged e b d = record d { deliverer = (deliver e.external e.execute d.deliverer b).0 }

-- if d.repStore != nil { leaderID := …; RecordCommit }
unfoldable pub record_leader :
    Environment → Committee → Block → Option Store → DHotStuff → Flow DHotStuff
record_leader e mc b none d = next d
record_leader e mc b (some store) d =
    demand (select_leader e d mc)
      λ leader. next (with_store (λ s. record_commit s leader.id b.height) d)

unfoldable pub three_chain :
    Environment
    → Committee
    → Block
    → Option Block
    → Option Block
    → Option Block
    → DHotStuff
    → Flow DHotStuff
unfolding record_leader
three_chain e mc b_star (some b_double) (some b_prime) (some b) d =
    if check_three_chain e.external b_star b_double b_prime b
    then record_leader e mc b d.rep_store (deliver_logged e b d)
    else next d
three_chain e mc b_star _ _ _ d = next d

pub deliver_released : Environment → Option Block → DHotStuff → DHotStuff
deliver_released e none d = d
deliver_released e (some b) d = deliver_logged e b d

unfoldable pub advance_pipeline : Environment → Block → DHotStuff → DHotStuff
unfolding deliver_released
advance_pipeline e b_star d =
    let (shifted, released) = advance e.external d.pipeline b_star in
    deliver_released e released (record d { pipeline = shifted })

-- the handler after the guard on the configuration
unfoldable pub process_block : Environment → Committee → Block → DHotStuff → Flow DHotStuff
process_block e mc b_star d = do
  let w = walk e.blockchain b_star
  voted ← vote_if_safe e mc b_star d
  let updated = two_chain e b_star w.b_double w.b_prime (one_chain e b_star w.b_double voted)
  committed ← three_chain e mc b_star w.b_double w.b_prime w.b updated
  returned (advance_pipeline e b_star committed)

unfoldable pub handle_propose : Environment → Block → DHotStuff → Flow DHotStuff
handle_propose e block d =
    demand (latest d.deliverer.configs)
      λ mc. if ltb mc.number block.conf_number then returned d else process_block e mc block d

-- ===== src/Consensus/Replica/Votes.antt =====
-- HandleVote of internal/consensus/dhotstuff.go.
pub mod Buffers
pub mod Outcomes
pub mod Signatures
use d_hotsuff.Prelude.{
  ℕ, Bytes, nat_instance, Bool, true, false, not, Option, none, some, List, [], ◌∷◌, ◌++◌, ltb,
  if◌then◌else◌, Result, ok, err, inc64,
}
use d_hotsuff.Prelude.Flow.{Flow, panic, returned, next, demand, ◌>>=◌}
use d_hotsuff.Prelude.Table.{lookup, insert, delete, get_or}
use d_hotsuff.Proto.{QuorumCert, VoteMsg, view_of}
use d_hotsuff.External.{External, PublicKey}
use d_hotsuff.Membership.Committee.{Replica, Committee, replica_by_id}
use d_hotsuff.Membership.ConfigStore.{latest}
use d_hotsuff.Crypto.Signer.{verify}
use d_hotsuff.Crypto.Votes.{aggregate_votes, has_quorum, create_qc}
use d_hotsuff.Consensus.Safety.{SafetyState}
use d_hotsuff.Consensus.Replica.{Environment, DHotStuff, propose}

-- replica.PubKey of a replica that may be nil
key_of : Option Replica → Option PublicKey
key_of none = none
key_of (some r) = r.pub_key

verified_by : External → VoteMsg → Option PublicKey → Bool
verified_by x vote none = false
verified_by x vote (some key) =
    verify x key vote.view_number vote.conf_number vote.block_hash vote.signature

-- the guards on the signer, its key and its signature
unfoldable pub admissible : External → Committee → VoteMsg → Bool
unfolding key_of verified_by
admissible x mc vote = verified_by x vote (key_of (replica_by_id mc vote.signer_id))

-- d.votesBuf[view]
unfoldable pub buffered : DHotStuff → ℕ → List VoteMsg
buffered d view = get_or [] (lookup view d.votes_buf)

-- GenericQC is replaced by a certificate of a later view
unfoldable pub raise_generic : QuorumCert → SafetyState → SafetyState
raise_generic qc safety = elim safety.generic_qc [
  | none ↦ record safety { generic_qc = some qc }
  | some held ↦
      if ltb held.view_number qc.view_number then record safety { generic_qc = some qc } else safety
]

-- the statements after a certificate is made
unfoldable pub certified_view : ℕ → QuorumCert → DHotStuff → DHotStuff
certified_view view qc d = record d {
  cur_view = inc64 d.cur_view;
  votes_buf = delete view d.votes_buf;
  safety = raise_generic qc d.safety;
}

-- CreateQC; a panic there is `ok none`
unfoldable pub finish_qc : Environment → ℕ → Result (Option QuorumCert) → DHotStuff → Flow DHotStuff
finish_qc e view (err _) d = returned d
finish_qc e view (ok none) d = panic
finish_qc e view (ok (some qc)) d = propose e (some qc) (certified_view view qc d)

-- the vote is stored, and a quorum of votes becomes a certificate and a proposal
unfoldable pub count_vote : Environment → Committee → VoteMsg → DHotStuff → Flow DHotStuff
unfolding finish_qc
count_vote e mc vote d =
    let view = vote.view_number in
    let votes = aggregate_votes (buffered d view) vote in
    let stored = record d { votes_buf = insert view votes d.votes_buf } in
    if has_quorum votes mc then finish_qc e view (create_qc votes mc) stored else returned stored

unfoldable pub handle_vote : Environment → VoteMsg → DHotStuff → Flow DHotStuff
unfolding count_vote
handle_vote e vote d =
    demand (latest d.deliverer.configs)
      λ mc. if admissible e.external mc vote then count_vote e mc vote d else returned d

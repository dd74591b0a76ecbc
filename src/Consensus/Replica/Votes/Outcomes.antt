-- ===== src/Consensus/Replica/Votes/Outcomes.antt =====
-- The outcomes of HandleVote of internal/consensus/dhotstuff.go.
use d_hotsuff.Prelude.{
  ℕ, ◌≤◌, ◌<◌, ◌≡◌, ◌⊎◌, inl, inr, refl, true, false, none, some, List, [], length, arith, inc64,
  if◌then◌else◌, nat_instance, Bool-cases,
}
use d_hotsuff.Prelude.Flow.{Leaves, Leaves-map}
use d_hotsuff.Prelude.Table.{insert, lookup, table_laws}
use d_hotsuff.Proto.{QuorumCert, VoteMsg}
use d_hotsuff.Membership.Committee.{Committee, quorum_size}
use d_hotsuff.Membership.ConfigStore.{latest}
use d_hotsuff.Crypto.Votes.{aggregate_votes}
use d_hotsuff.Crypto.Votes.Counting.{has_quorum_lem}
use d_hotsuff.Membership.Quorum.FirstVotes.{first_votes}
use d_hotsuff.Crypto.Votes.Certify.{IsMadeOf, create_qc-has_quorum}
use d_hotsuff.Consensus.Replica.{Environment, DHotStuff}
use d_hotsuff.Consensus.Replica.Proposing.{Proposed, propose-Proposed}
use d_hotsuff.Consensus.Replica.Votes.{
  admissible, buffered, raise_generic, certified_view, count_vote, handle_vote,
}

-- The buffer of the vote's view with the vote in it, and the state that stores it.
abbrev pub with_vote : DHotStuff → VoteMsg → List VoteMsg
with_vote d vote = aggregate_votes (buffered d vote.view_number) vote

abbrev pub stored : DHotStuff → VoteMsg → DHotStuff
stored d vote = record d { votes_buf = insert vote.view_number (with_vote d vote) d.votes_buf }

-- The number of different signers in the buffer after the vote.
abbrev pub signers_after : DHotStuff → VoteMsg → ℕ
signers_after d vote = length (first_votes [] (with_vote d vote))

-- A quorum of votes for a view became a certificate, and the certificate a proposal.
pub record Certified (e : Environment) (mc : Committee) (vote : VoteMsg) (d d' : DHotStuff)
    : Type 0 where
  pub qc : QuorumCert
  pub made : IsMadeOf qc (with_vote d vote) mc
  pub view : d'.cur_view ≡ inc64 d.cur_view
  pub buffers :
      (v : ℕ)
      → lookup v d'.votes_buf
        ≡ (if nat_instance.beq vote.view_number v then none else lookup v d.votes_buf)
  pub safety : d'.safety ≡ raise_generic qc d.safety
  pub vc : d'.vc ≡ d.vc
  pub deliverer : d'.deliverer ≡ d.deliverer
  pub proposed : Proposed e (some qc) (certified_view vote.view_number qc (stored d vote)) d'

-- What HandleVote leaves, by the committee that is the latest.
abbrev pub Outcome : Environment → Committee → VoteMsg → DHotStuff → DHotStuff → Type 0
Outcome e mc vote d d' =
    ((admissible e.external mc vote ≡ false) × (d' ≡ d))
    ⊎ ((admissible e.external mc vote ≡ true)
        × (signers_after d vote < quorum_size mc)
        × (d' ≡ stored d vote))
    ⊎ ((admissible e.external mc vote ≡ true)
        × (quorum_size mc ≤ signers_after d vote)
        × Certified e mc vote d d')

Proposed-Certified :
    (e : Environment) (mc : Committee) (vote : VoteMsg) (d : DHotStuff) (qc : QuorumCert)
    → IsMadeOf qc (with_vote d vote) mc
    → (d' : DHotStuff)
    → Proposed e (some qc) (certified_view vote.view_number qc (stored d vote)) d'
    → Certified e mc vote d d'
unfolding certified_view
Proposed-Certified e mc vote d qc made d' p = record {
  qc = qc;
  made = made;
  view = p.core.cur_view;
  buffers = λ v. rw p.core.votes_buf (simp table_laws (ground arith));
  safety = p.core.safety;
  vc = p.core.vc;
  deliverer = p.core.deliverer;
  proposed = p;
}

count_vote-Outcome :
    (e : Environment) (mc : Committee) (vote : VoteMsg) (d : DHotStuff)
    → 0 < quorum_size mc
    → admissible e.external mc vote ≡ true
    → Leaves (Outcome e mc vote d) (count_vote e mc vote d)
unfolding count_vote
count_vote-Outcome e mc vote d pos good = elim (create_qc-has_quorum (with_vote d vote) mc pos) [
  | inl (quorum, (qc, created, made)) ↦
      let enough : quorum_size mc ≤ signers_after d vote =
        ground (arith, has_quorum_lem (with_vote d vote) mc pos) in
      rw (quorum, created)
        (Leaves-map _ (Outcome e mc vote d) _
          (propose-Proposed e (some qc) (certified_view vote.view_number qc (stored d vote)))
          λ d' p. inr (inr (good, enough, Proposed-Certified e mc vote d qc made d' p)))
  | inr (few, _) ↦
      rw few (inr (inl (good, ground (arith, has_quorum_lem (with_vote d vote) mc pos), refl)))
]

-- HandleVote drops a vote that is not by a member with a key under which its signature verifies,
-- and changes nothing; it stores the vote, and does nothing else, while the view has votes of
-- fewer signers than a quorum; and otherwise it makes the certificate, enters the next view, drops
-- the view's votes and proposes.
pub handle_vote-Outcome :
    (e : Environment) (mc : Committee) (vote : VoteMsg) (d : DHotStuff)
    → latest d.deliverer.configs ≡ some mc
    → 0 < quorum_size mc
    → Leaves (Outcome e mc vote d) (handle_vote e vote d)
unfolding handle_vote
handle_vote-Outcome e mc vote d current pos =
    rw current (elim (Bool-cases (admissible e.external mc vote)) [
      | inl good ↦ rw good (count_vote-Outcome e mc vote d pos good)
      | inr bad ↦ rw bad (inl (bad, refl))
    ])

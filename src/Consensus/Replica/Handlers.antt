-- ===== src/Consensus/Replica/Handlers.antt =====
-- What each handler of internal/consensus/dhotstuff.go returns.
use d_hotsuff.Prelude.{◌<◌, ◌≡◌, refl, Bool, some}
use d_hotsuff.Prelude.Flow.{Leaves, Flow, panic, returned, next}
use d_hotsuff.Proto.{Block, NewViewMsg, VoteMsg}
use d_hotsuff.Membership.Committee.{Committee, size}
use d_hotsuff.Membership.Committee.Bounds.{quorum_size_pos}
use d_hotsuff.Membership.ConfigStore.{latest}
use d_hotsuff.Consensus.Replica.{Environment, DHotStuff}
use d_hotsuff.Consensus.Replica.Proposals.{handle_propose}
use d_hotsuff.Consensus.Replica.Votes.{handle_vote}
use d_hotsuff.Consensus.Replica.NewViews.{handle_new_view}
use d_hotsuff.Consensus.Replica.Proposals.Commits
use d_hotsuff.Consensus.Replica.Proposals.Commits.{handle_propose-Outcome}
use d_hotsuff.Consensus.Replica.Votes.Outcomes
use d_hotsuff.Consensus.Replica.Votes.Outcomes.{handle_vote-Outcome}
use d_hotsuff.Consensus.Replica.NewViews.Quorums
use d_hotsuff.Consensus.Replica.NewViews.Quorums.{handle_new_view-Outcome}
use d_hotsuff.Consensus.Replica.Timeouts.Views.{TimedOut, handle_timeout-TimedOut}
use d_hotsuff.Consensus.Replica.Timeouts.{handle_timeout}
use d_hotsuff.Consensus.Replica.Running.{
  Returns, handle_propose-Returns, handle_vote-Returns, handle_new_view-Returns,
  handle_timeout-Returns,
}

-- A handler that returns leaves a state, with what it is known to leave.
returned_state :
    (P : DHotStuff → Type 0) (m : Flow DHotStuff)
    → Returns m
    → Leaves P m
    → (d' : DHotStuff) × (m ≡ returned d') × P d'
returned_state P panic r h = absurd r
returned_state P (returned d') r h = (d', refl, h)
returned_state P (next d') r h = absurd r

pub handle_propose_lem :
    (e : Environment) (mc : Committee) (b_star : Block) (d : DHotStuff)
    → 0 < size mc
    → latest d.deliverer.configs ≡ some mc
    → (d' : DHotStuff) × (handle_propose e b_star d ≡ returned d')
      × Commits.Outcome e mc b_star d d'
handle_propose_lem e mc b_star d h current =
    returned_state _ _ (handle_propose-Returns e mc b_star d h current)
      (handle_propose-Outcome e mc b_star d current)

-- While the latest configuration has a member, HandleVote returns: it changes nothing for a vote
-- that is not by a member with a key under which its signature verifies; it stores the vote while
-- the view has votes of fewer signers than a quorum; and otherwise it makes the certificate,
-- enters the next view, drops the votes of the view and proposes.
pub handle_vote_lem :
    (e : Environment) (mc : Committee) (vote : VoteMsg) (d : DHotStuff)
    → 0 < size mc
    → latest d.deliverer.configs ≡ some mc
    → (d' : DHotStuff) × (handle_vote e vote d ≡ returned d') × Outcomes.Outcome e mc vote d d'
handle_vote_lem e mc vote d h current =
    returned_state _ _ (handle_vote-Returns e mc vote d h current)
      (handle_vote-Outcome e mc vote d current (quorum_size_pos mc))

-- While the latest configuration has a member, HandleNewView returns: it stores the message while
-- its view has fewer messages than a quorum; and otherwise it enters the view, with its messages
-- dropped, the highest certificate no older than those of the messages and the one held, the lock
-- and the view kept, and a proposal on that certificate.
pub handle_new_view_lem :
    (e : Environment) (mc : Committee) (msg : NewViewMsg) (d : DHotStuff)
    → 0 < size mc
    → latest d.deliverer.configs ≡ some mc
    → (d' : DHotStuff) × (handle_new_view e msg d ≡ returned d') × Quorums.Outcome e mc msg d d'
handle_new_view_lem e mc msg d h current =
    returned_state _ _ (handle_new_view-Returns e mc msg d h current)
      (handle_new_view-Outcome e mc msg d current)

-- While the latest configuration has a member, HandleTimeout, with no other handler between its
-- steps, returns: the view changer and the replica are in the view after that of the view
-- changer, the votes of the view that timed out are dropped, the window is empty, and the safety
-- variables, the deliveries and the queue are kept.
pub handle_timeout_lem :
    (e : Environment) (mc : Committee) (ctx_done : Bool) (d : DHotStuff)
    → 0 < size mc
    → latest d.deliverer.configs ≡ some mc
    → (d' : DHotStuff) × (handle_timeout e ctx_done d ≡ returned d') × TimedOut d d'
handle_timeout_lem e mc ctx_done d h current =
    returned_state _ _ (handle_timeout-Returns e mc ctx_done d h current)
      (handle_timeout-TimedOut e ctx_done d)
